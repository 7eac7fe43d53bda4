-- ===== src/Api/Update/Confirmed.antt =====
-- Which updates are accepted.
use opendash.Prelude.{
  ◌≡◌, refl, sym, ◌∙◌, ◌⊎◌, inl, inr, String, true, not, ◌||◌, Option, none, some, Result, ok, err,
  ◌==◌, eq_iff, arith, Bool-cases,
}
use opendash.Models.Time.{Time}
use opendash.Models.App.{AppInstance}
use opendash.Models.Source.{UpdatePreview, UpdateApplyRequest}
use opendash.Sql.{Conn, pure, try}
use opendash.Sql.Triple.{Triple, Outcome, Triple-pure, Triple-try, Triple-bind}
use opendash.Store.Rows.{StoreDb, StoreError}
use opendash.Models.Status.{OperationKind}
use opendash.Store.Operations.{create_operation, get_active_operation_for_app}
use opendash.Sources.Service.{SourceError, Sources, of_store, update_preview}
use opendash.Sources.Service.Updates.{
  of_store-Triple, read-Triple, distrusted, IsPreviewed, IsOffer, preview-Triple,
}
use opendash.Api.Operations.{Reply, refused, accepted, is_active_found}
use opendash.Api.Operations.Looked.{IsInstance, instance_id, IsLooked, look-Triple}
use opendash.Api.Operations.Started.{IsAdded, create-Triple, IsStarted, added-IsStarted}
use opendash.Api.Update.{
  Updater, update_operation_of, reply_update, is_confirmed, is_reviewed, is_acknowledged,
  create_update, with_preview, with_installed, app_apply_update,
}

-- Nothing was written, but that a source may be no longer trusted.
abbrev pub IsMarked : Time → StoreDb → StoreDb → Type 0
IsMarked now d0 d = (d ≡ d0) ⊎ ((id : String) × (d ≡ distrusted now id d0))

-- what UpdatePreview gives for the application, with some failures of the driver
abbrev pub IsPreviewOf : Updater → AppInstance → StoreDb → UpdatePreview → Type 0
IsPreviewOf env inst d0 p =
    (c : Conn StoreDb) × (c.db ≡ d0)
    × ((update_preview env.library env.resolve env.now env.apps_root inst c).0 ≡ ok p)

-- A preview that the request confirms.
abbrev pub IsConfirmed :
    Updater → AppInstance → StoreDb → UpdateApplyRequest → UpdatePreview → Type 0
IsConfirmed env inst d0 req p =
    IsPreviewOf env inst d0 p
    × (req.confirmed ≡ true)
    × (p.new_commit ≡ req.commit_sha)
    × (p.new_checksum ≡ req.checksum)
    × (not (p.new_commit == p.current_commit) ≡ true)
    × ((not p.requires_acknowledgement || req.acknowledged_risks) ≡ true)
    × (p.new_manifest.id ≡ p.current_manifest.id)

-- What a reply says, of the request for the application with the id.
abbrev pub IsApplied : Updater → UpdateApplyRequest → String → StoreDb → Reply → StoreDb → Type 0
IsApplied env req id d0 (refused status code) d = IsMarked env.now d0 d
IsApplied env req id d0 (accepted op inst) d =
    (p : UpdatePreview) × (d1 : StoreDb) × IsInstance id inst d0
    × IsConfirmed env inst d0 req p
    × IsMarked env.now d0 d1
    × IsStarted env.now env.operation_id OperationKind.update id op d1 d

module _ (env : Updater) (req : UpdateApplyRequest) (id : String) (d0 : StoreDb) where
  previewed-IsMarked :
      (inst : AppInstance) (d : StoreDb)
      → IsPreviewed env.resolve env.now inst d0 d
      → IsMarked env.now d0 d
  previewed-IsMarked inst d (inl e) = inl e
  previewed-IsMarked inst d (inr (src, res, a, b, c, e, f)) = inr (src.id, f)

  -- The creation of the operation, from any tables.
  abbrev IsMade : AppInstance → Option (Unit {0}) → StoreDb → Type 0
  IsMade inst none d = IsMarked env.now d0 d
  IsMade inst (some u) d =
      (d1 : StoreDb) × IsMarked env.now d0 d1 × IsAdded env.now (update_operation_of env inst) d1 d

  create-Triple-IsMarked :
      (inst : AppInstance)
      → Triple {E = SourceError}
          (IsMarked env.now d0)
          (try (of_store (create_operation env.now (update_operation_of env inst))))
          (IsMade inst)
          (λ _ _. ⊥)
  create-Triple-IsMarked inst = Triple-try (of_store-Triple (record { at = λ c p. made c p }))
    where
      made :
          (c : Conn StoreDb)
          → IsMarked env.now d0 c.db
          → Outcome
              (λ u. IsMade inst (some u))
              (λ _. IsMarked env.now d0)
              (create_operation env.now (update_operation_of env inst) c).0
              (create_operation env.now (update_operation_of env inst) c).1.db
      made c p =
          go (create_operation env.now (update_operation_of env inst) c).0
            ((create-Triple env.now (update_operation_of env inst) c.db refl).at c refl)
        where
          go :
              (r : Result StoreError (Unit {0}))
              → Outcome
                  (λ _. IsAdded env.now (update_operation_of env inst) c.db)
                  (λ _ d. d ≡ c.db)
                  r
                  (create_operation env.now (update_operation_of env inst) c).1.db
              → Outcome
                  (λ u. IsMade inst (some u))
                  (λ _. IsMarked env.now d0)
                  r
                  (create_operation env.now (update_operation_of env inst) c).1.db
          go (ok u) h = (c.db, p, h)
          go (err e) h = rw h p

  abbrev Leads : (StoreDb → Type 0) → Sources Reply → Type 0
  Leads P m = Triple P m (IsApplied env req id d0) (λ _ _. ⊥)

  create-Leads :
      (inst : AppInstance) (p : UpdatePreview)
      → IsInstance id inst d0
      → IsConfirmed env inst d0 req p
      → Leads (IsMarked env.now d0) (create_update env inst)
  create-Leads inst p there k = Triple-bind {Q = IsMade inst} (create-Triple-IsMarked inst) done
    where
      done : (o : Option (Unit {0})) → Leads (IsMade inst o) (pure (reply_update env inst o))
      done none = Triple-pure _ (λ d h. h)
      done (some u) = Triple-pure _ (λ d h. (
        p,
        h.0,
        there,
        k,
        h.1,
        added-IsStarted env.now env.operation_id OperationKind.update id inst.id h.0 d
            (instance_id id inst d0 there) h.2,
      ))

  abbrev IsSeen : AppInstance → Option UpdatePreview → StoreDb → Type 0
  IsSeen inst none d = IsMarked env.now d0 d
  IsSeen inst (some p) d =
      IsMarked env.now d0 d
      × IsPreviewOf env inst d0 p
      × (p.can_update ≡ not (p.new_commit == p.current_commit))

  read_preview-Triple :
      (inst : AppInstance)
      → Triple
          (λ d. d ≡ d0)
          (try (update_preview env.library env.resolve env.now env.apps_root inst))
          (IsSeen inst)
          (λ _ _. ⊥)
  read_preview-Triple inst = Triple-try (record {
    at = λ c e.
        go c e _ refl
          ((preview-Triple env.library env.resolve env.now env.apps_root inst d0).at c e);
  })
    where
      go :
          (c : Conn StoreDb) (e : c.db ≡ d0) (r : Result SourceError UpdatePreview)
          → (update_preview env.library env.resolve env.now env.apps_root inst c).0 ≡ r
          → let d = (update_preview env.library env.resolve env.now env.apps_root inst c).1.db in
            Outcome
              (IsOffer env.library env.resolve env.now env.apps_root inst d0)
              (λ _. IsPreviewed env.resolve env.now inst d0)
              r
              d
            → Outcome (λ p. IsSeen inst (some p)) (λ _. IsSeen inst none) r d
      go c e (ok p) q (src, res, a, b, app, current, new, checksum, manifest, can, h) =
          (previewed-IsMarked inst _ h, (c, e, q), rw (can, new, current) refl)
      go c e (err x) q h = previewed-IsMarked inst _ h

  preview-Leads :
      (inst : AppInstance) (o : Option UpdatePreview)
      → IsInstance id inst d0
      → is_confirmed req ≡ true
      → Leads (IsSeen inst o) (with_preview env req inst o)
  preview-Leads inst none there k = Triple-pure _ (λ d h. h)
  preview-Leads inst (some p) there k = record { at = λ c h. (go h).at c h.0 }
    where
      go :
          {d : StoreDb}
          → IsSeen inst (some p) d
          → Leads (IsMarked env.now d0) (with_preview env req inst (some p))
      go h = elim (Bool-cases (is_reviewed req p)) [
        | inr a ↦ rw a (Triple-pure _ (λ d h. h))
        | inl a ↦ rw a (elim (Bool-cases p.can_update) [
          | inr b ↦ rw b (Triple-pure _ (λ d h. h))
          | inl b ↦ rw b (elim (Bool-cases (is_acknowledged req p)) [
            | inr e ↦ rw e (Triple-pure _ (λ d h. h))
            | inl e ↦ rw e (elim (Bool-cases (p.new_manifest.id == p.current_manifest.id)) [
              | inr f ↦ rw f (Triple-pure _ (λ d h. h))
              | inl f ↦ rw f (
                  create-Leads inst p there (
                    h.1,
                    ground (arith, k),
                    (eq_iff _ _).0 (ground (arith, a)),
                    (eq_iff _ _).0 (ground (arith, a)),
                    sym h.2 ∙ b,
                    e,
                    (eq_iff _ _).0 f,
                  ))
            ])
          ])
        ])
      ]

  installed-Leads :
      (o : Option AppInstance)
      → is_confirmed req ≡ true
      → Leads (IsLooked id d0 o) (with_installed env req o)
  unfolding get_active_operation_for_app
  installed-Leads none k = Triple-pure _ (λ d h. inl h)
  installed-Leads (some inst) k = record { at = λ c p. (go p.1).at c p.0 }
    where
      go : IsInstance id inst d0 → Leads (λ d. d ≡ d0) (with_installed env req (some inst))
      go there =
          Triple-bind {Q = λ _ d. d ≡ d0}
            (Triple-try (of_store-Triple (read-Triple _ (λ d. d ≡ d0))))
            λ active. elim (Bool-cases (is_active_found active)) [
              | inl f ↦ rw f (Triple-pure _ (λ d h. inl h))
              | inr f ↦ rw f (
                  Triple-bind {Q = IsSeen inst} (read_preview-Triple inst)
                    λ o. preview-Leads inst o there k)
            ]

  apply-Leads : Leads (λ d. d ≡ d0) (app_apply_update env (some req) id)
  unfolding app_apply_update
  apply-Leads = elim (Bool-cases (is_confirmed req)) [
    | inl k ↦ rw k (
        Triple-bind {Q = IsLooked id d0} (Triple-try (of_store-Triple (look-Triple id d0)))
          λ o. installed-Leads o k)
    | inr k ↦ rw k (Triple-pure _ (λ d h. inl h))
  ]

-- Whatever the driver and the resolver do, AppApplyUpdate returns a reply. A refusal writes nothing, but that a source may be
-- no longer trusted. An acceptance has in addition only added a pending update operation with the new id, of the application with the requested id, which had no active one; the request
-- was confirmed, and has the commit and the checksum of a preview of the update. That preview is at another commit
-- than the stored one, of an application with the same id, and its risks are acknowledged where it requires so.
pub app_apply_update-IsApplied :
    (env : Updater) (req : UpdateApplyRequest) (id : String) (c : Conn StoreDb)
    → (reply : Reply) × ((app_apply_update env (some req) id c).0 ≡ ok reply)
      × IsApplied env req id c.db reply (app_apply_update env (some req) id c).1.db
app_apply_update-IsApplied env req id c =
    go (app_apply_update env (some req) id c).0 ((apply-Leads env req id c.db).at c refl)
  where
    d' : StoreDb
    d' = (app_apply_update env (some req) id c).1.db

    go :
        (r : Result SourceError Reply)
        → Outcome (IsApplied env req id c.db) (λ _ _. ⊥) r d'
        → (reply : Reply) × (r ≡ ok reply) × IsApplied env req id c.db reply d'
    go (ok reply) h = (reply, refl, h)
    go (err e) h = absurd h
