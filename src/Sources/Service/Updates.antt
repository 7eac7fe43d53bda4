-- ===== src/Sources/Service/Updates.antt =====
-- What a preview of an update offers, and what it writes.
use opendash.Prelude.{
  ◌≡◌, ◌≢◌, eq_iff, false, refl, ap, ◌⊎◌, inl, inr, String, not, ◌&&◌, Option, none, some, Result,
  ok, err, or_err, ◌==◌, find_first, update_if, arith, Bool-cases,
}
use opendash.Models.Time.{Time, unix}
use opendash.Models.Status.{SourceTrust}
use opendash.Models.App.{AppInstance}
use opendash.Models.Manifest.{Manifest}
use opendash.Models.Plan.{InstallPlan}
use opendash.Models.Source.{ManifestSource, UpdatePreview}
use opendash.Sql.{Conn, lift, query}
use opendash.Sql.Triple.{
  Triple, Outcome, Triple-pure, Triple-lift, Triple-stmt, Triple-bind, Triple-try,
}
use opendash.Store.Rows.{SourceRow, StoreDb, StoreError, Store, database_failed}
use opendash.Store.Apps.{list_app_instances}
use opendash.Store.Operations.{get_latest_revision, update_sources}
use opendash.Store.Sources.{found_source, get_manifest_source, update_manifest_source_trust}
use opendash.Github.Url.{Url}
use opendash.Sources.Service.{
  Sources, SourceError, of_result, of_store, Resolved, ServiceLibrary, stored_url, is_drifted,
  is_trusted, downgrade, update_preview_of, update_preview,
}

-- A triple may use what its precondition says for certain.
Triple-known :
    {A F : Type 0} {P : StoreDb → Type 0} {m : Sources A} {Q : A → StoreDb → Type 0}
    {R : SourceError → StoreDb → Type 0}
    → ((d : StoreDb) → P d → F)
    → (F → Triple P m Q R)
    → Triple P m Q R
Triple-known k t = record { at = λ c p. (t (k c.db p)).at c p }

differs : {a b : String} → (a == b) ≡ false → a ≢ b
differs {a} {b} h same = absurd (let yes = (eq_iff a b).1 same in cc)

-- A call of the store, in the service.
pub of_store-Triple :
    {A : Type 0} {m : Store A} {P S : StoreDb → Type 0} {Q : A → StoreDb → Type 0}
    → Triple P m Q (λ _. S)
    → Triple P (of_store m) Q (λ _. S)
unfolding of_store
of_store-Triple {A} {m} {P} {S} {Q} t = record { at = λ c p. go (m c) (t.at c p) }
  where
    go :
        (z : Result StoreError A × Conn StoreDb)
        → Outcome Q (λ _. S) z.0 z.1.db
        → Outcome {E = SourceError} Q (λ _. S) (of_result z).0 (of_result z).1.db
    go (ok a, c) h = h
    go (err e, c) h = h

-- A read of the store that keeps a predicate.
pub read-Triple :
    {A : Type 0} (f : StoreDb → Result StoreError A) (P : StoreDb → Type 0)
    → Triple {E = StoreError} P (query database_failed f) (λ _. P) (λ _. P)
read-Triple {A} f P = Triple-stmt _ _ (λ d h. go d (f d) h) (λ d h. h)
  where
    go : (d : StoreDb) (r : Result StoreError A) → P d → Outcome (λ _. P) (λ _. P) r d
    go d (ok a) h = h
    go d (err e) h = h

pub keeps_lift :
    {A : Type 0} (r : Result SourceError A) (P : StoreDb → Type 0)
    → Triple P (lift r) (λ _. P) (λ _. P)
keeps_lift r P = Triple-lift r (λ a e d h. h) (λ x e d h. h)

-- the tables in which the source is no longer trusted
abbrev pub distrusted : Time → String → StoreDb → StoreDb
distrusted now id d = record d {
  sources =
      update_if (λ (s : SourceRow). s.id == id)
        (λ (s : SourceRow). record s { trust = SourceTrust.changed; updated_at = unix now })
        d.sources;
}

-- the source of the application, as it is stored
abbrev pub IsSourceOf : AppInstance → StoreDb → ManifestSource → Type 0
IsSourceOf inst d src =
    found_source (find_first (λ (s : SourceRow). s.id == inst.source_id) d.sources) ≡ ok src

-- what the resolver gives for the repository, the reference and the path that are stored of the source
abbrev pub IsResolution : (Url → Option Resolved) → ManifestSource → Resolved → Type 0
IsResolution resolve src res =
    resolve (record {
      raw = "";
      owner = src.owner;
      repo = src.repo;
      ref = src.ref;
      path = src.path;
      is_tree = false;
    })
    ≡ some res

-- Nothing was written, or the source is no longer trusted, since its commit has other content now.
abbrev pub IsPreviewed : (Url → Option Resolved) → Time → AppInstance → StoreDb → StoreDb → Type 0
IsPreviewed resolve now inst d0 d =
    (d ≡ d0)
    ⊎ ((src : ManifestSource) × (res : Resolved) × IsSourceOf inst d0 src
        × IsResolution resolve src res
        × (res.commit ≡ src.commit_sha)
        × (res.checksum ≢ src.checksum)
        × (d ≡ distrusted now src.id d0))

offers-update :
    (lib : ServiceLibrary) (inst : AppInstance) (src : ManifestSource) (res : Resolved)
    (current : Manifest) (old new : InstallPlan)
    → (update_preview_of lib inst src res current old new).can_update
      ≡ not (res.commit == src.commit_sha)
unfolding update_preview_of
offers-update lib inst src res current old new = elim (Bool-cases (res.commit == src.commit_sha)) [
  | inl e ↦ elim (Bool-cases (res.checksum == src.checksum)) [
    | inl f ↦ rw (e, f) refl
    | inr f ↦ rw (e, f) refl
  ]
  | inr e ↦ rw e refl
]

module _ (lib : ServiceLibrary) (resolve : Url → Option Resolved) (now : Time) (apps_root : String)
    (inst : AppInstance) (d0 : StoreDb) where
  abbrev IsDone : StoreDb → Type 0
  IsDone d = IsPreviewed resolve now inst d0 d

  abbrev IsFound : ManifestSource → StoreDb → Type 0
  IsFound src d = (d ≡ d0) × IsSourceOf inst d0 src

  abbrev IsResolved : ManifestSource → Resolved → StoreDb → Type 0
  IsResolved src res d = (d ≡ d0) × IsSourceOf inst d0 src × (resolve (stored_url src) ≡ some res)

  source-Triple :
      Triple (λ d. d ≡ d0) (of_store (get_manifest_source inst.source_id)) IsFound (λ _. IsDone)
  unfolding get_manifest_source
  source-Triple = of_store-Triple (Triple-stmt _ _ (λ d h. rw h (go _ refl)) (λ d h. inl h))
    where
      go :
          (r : Result StoreError ManifestSource)
          → found_source (find_first (λ (s : SourceRow). s.id == inst.source_id) d0.sources) ≡ r
          → Outcome IsFound (λ (_ : StoreError). IsDone) r d0
      go (ok src) h = (refl, h)
      go (err e) h = inl refl

  resolve-Triple :
      (src : ManifestSource)
      → Triple
          (IsFound src)
          (lift (or_err (resolve (stored_url src)) SourceError.resolve_failed))
          (IsResolved src)
          (λ _. IsDone)
  resolve-Triple src =
      Triple-lift _ (λ res e d h. (h.0, h.1, found (resolve (stored_url src)) e))
        (λ x e d h. inl h.0)
    where
      found :
          (o : Option Resolved) {res : Resolved}
          → or_err o SourceError.resolve_failed ≡ ok res
          → o ≡ some res
      found none h = cc
      found (some r) h =
          ap (λ (q : Result SourceError Resolved). elim q [ ok x ↦ some x | err e ↦ some r ]) h

  downgrade-Triple :
      (src : ManifestSource) (res : Resolved)
      → Triple (IsResolved src res) (downgrade now src res) (λ _. IsDone) (λ _. IsDone)
  unfolding update_manifest_source_trust update_sources
  downgrade-Triple src res = elim (Bool-cases (is_drifted src res && is_trusted src.trust)) [
    | inl e ↦
        let other : res.checksum ≢ src.checksum = differs (ground (arith, e)) in
        rw e (
          Triple-bind {Q = λ _. IsDone}
            (Triple-try (
              of_store-Triple (
                Triple-bind {Q = λ _. IsDone}
                  (Triple-stmt _ _
                    (λ d h.
                      inr (
                        src,
                        res,
                        h.1,
                        h.2,
                        (eq_iff _ _).0 (ground (arith, e)),
                        other,
                        rw h.0 refl,
                      ))
                    (λ d h. inl h.0))
                  λ n. Triple-pure tt (λ d h. h))))
            λ u. Triple-pure tt (λ d h. h))
    | inr e ↦ rw e (Triple-pure tt (λ d h. inl h.0))
  ]

  -- What the preview says of the update, and of the store: its commits, its checksum and its manifest are those of the stored source
  -- and of what the resolver gives, and it offers the update exactly if the commits differ.
  abbrev pub IsOffer : UpdatePreview → StoreDb → Type 0
  IsOffer p d =
      (src : ManifestSource) × (res : Resolved) × IsSourceOf inst d0 src
      × IsResolution resolve src res
      × (p.app_id ≡ inst.id)
      × (p.current_commit ≡ src.commit_sha)
      × (p.new_commit ≡ res.commit)
      × (p.new_checksum ≡ res.checksum)
      × (p.new_manifest ≡ res.manifest)
      × (p.can_update ≡ not (res.commit == src.commit_sha))
      × IsDone d

  pub preview-Triple :
      Triple (λ d. d ≡ d0) (update_preview lib resolve now apps_root inst) IsOffer (λ _. IsDone)
  unfolding update_preview update_preview_of get_latest_revision list_app_instances
  preview-Triple =
      Triple-bind {Q = λ _ d. d ≡ d0} (Triple-lift _ (λ a e d h. h) (λ x e d h. inl h)) λ a.
        Triple-bind {Q = IsFound} source-Triple λ src.
          Triple-bind {Q = λ _. IsFound src}
            (Triple-try (of_store-Triple (read-Triple _ (IsFound src))))
            λ found.
              Triple-bind {Q = λ _. IsFound src}
                (Triple-lift _ (λ rev e d h. h) (λ x e d h. inl h.0))
                λ rev. Triple-bind {Q = IsResolved src} (resolve-Triple src) λ res.
                  Triple-known {F = IsSourceOf inst d0 src × IsResolution resolve src res}
                    (λ d h. (h.1, h.2))
                    λ known. Triple-bind {Q = λ _. IsDone} (downgrade-Triple src res) λ u.
                      Triple-bind {Q = λ _. IsDone} (of_store-Triple (read-Triple _ IsDone))
                        λ existing. Triple-bind {Q = λ _. IsDone} (keeps_lift _ IsDone) λ old.
                          Triple-bind {Q = λ _. IsDone} (keeps_lift _ IsDone) λ new.
                            Triple-pure _ (λ d h. (
                              src,
                              res,
                              known.0,
                              known.1,
                              refl,
                              refl,
                              refl,
                              refl,
                              refl,
                              offers-update lib inst src res rev.manifest old new,
                              h,
                            ))

-- Whatever the driver and the resolver do: a preview that is returned has the commit of the stored source of the application and the
-- commit, checksum and manifest that the resolver gives for it, and offers the update exactly if these commits differ. And a preview
-- writes nothing, whether it is returned or not, but that the source of the application is no longer trusted where the resolver
-- gave another checksum for its stored commit.
pub update_preview-IsOffer :
    (lib : ServiceLibrary) (resolve : Url → Option Resolved) (now : Time) (apps_root : String)
    (inst : AppInstance) (c : Conn StoreDb)
    → Outcome
        (IsOffer lib resolve now apps_root inst c.db)
        (λ _. IsPreviewed resolve now inst c.db)
        (update_preview lib resolve now apps_root inst c).0
        (update_preview lib resolve now apps_root inst c).1.db
update_preview-IsOffer lib resolve now apps_root inst c =
    (preview-Triple lib resolve now apps_root inst c.db).at c refl
