-- ===== src/Store/Applied.antt =====
-- What a successful update and a deletion leave in the tables.
use opendash.Prelude.{
  ℕ, ◌≡◌, refl, ap, Bool, String, ◌||◌, ◌&&◌, not, List, ◌∷◌, arith, ◌==◌, nat_eq, exists, count_if,
  update_if, Bool-cases, inl, inr, Result, ok, err,
}
use opendash.Models.Time.{Time, unix}
use opendash.Models.App.{AppInstance, Revision}
use opendash.Models.Source.{ManifestSource}
use opendash.Sql.{Conn}
use opendash.Sql.Triple.{
  Triple, Outcome, Triple-pure, Triple-raise, Triple-stmt, Triple-bind, Triple-transaction,
  Triple-if,
}
use opendash.Store.Rows.{InstanceRow, RevisionRow, SourceRow, StoreDb, StoreError, database_failed}
use opendash.Store.Apps.{update_instances}
use opendash.Store.Operations.{
  app_known, update_sources, insert_revision, apply_body, apply_successful_update,
}

-- the row of the source that the update expects
abbrev pub is_expected : ManifestSource → String → String → SourceRow → Bool
is_expected source commit checksum r =
    r.id == source.id && r.commit_sha == commit && r.checksum == checksum

-- The row keeps its id, its place in GitHub, its trust and its creation.
abbrev pub source_after : Time → ManifestSource → SourceRow → SourceRow
source_after now source r = record {
  id = r.id;
  source_url = r.source_url;
  owner = r.owner;
  repo = r.repo;
  path = r.path;
  ref = r.ref;
  commit_sha = source.commit_sha;
  manifest_json = source.manifest_json;
  checksum = source.checksum;
  trust = r.trust;
  created_at = r.created_at;
  updated_at = unix now;
}

-- The row keeps its id, its source, its project, its place and its creation.
abbrev pub instance_after : Time → AppInstance → InstanceRow → InstanceRow
instance_after now a r = record {
  id = r.id;
  catalog_id = r.catalog_id;
  source_id = r.source_id;
  name = a.name;
  version = a.version;
  project_name = r.project_name;
  install_path = r.install_path;
  compose_path = a.compose_path;
  status = a.status;
  health = a.health;
  endpoints_json = a.endpoints;
  storage_json = a.storage;
  created_at = r.created_at;
  updated_at = unix now;
}

abbrev pub revision_added : Time → Revision → RevisionRow
revision_added now v = record {
  id = v.id;
  app_id = v.app_id;
  manifest_json = v.manifest;
  config_json = v.config_json;
  compose_path = v.compose_path;
  created_at = unix now;
}

module _ (now : Time) (a : AppInstance) (v : Revision) (source : ManifestSource)
    (commit checksum : String) where
  abbrev sources_after : StoreDb → List SourceRow
  sources_after d0 =
      update_if (is_expected source commit checksum) (source_after now source) d0.sources

  -- `d` is `d0` after the update: the one row of the source, if it still has the expected commit and
  -- checksum, has the new ones; the revision is there; the application has its new columns.
  pub record IsApplied (d0 d : StoreDb) : Type 0 where
    pub was_expected : count_if (is_expected source commit checksum) d0.sources ≡ 1
    pub tables : d ≡ record d0 {
      sources = sources_after d0;
      revisions = revision_added now v ∷ d0.revisions;
      instances = update_if (λ (r : InstanceRow). r.id == a.id) (instance_after now a) d0.instances;
    }

  abbrev Counted : StoreDb → ℕ → StoreDb → Type 0
  Counted d0 n d =
      (n ≡ count_if (is_expected source commit checksum) d0.sources)
      × (d ≡ record d0 { sources = sources_after d0 })

  abbrev Checked : StoreDb → StoreDb → Type 0
  Checked d0 d =
      (count_if (is_expected source commit checksum) d0.sources ≡ 1)
      × (d ≡ record d0 { sources = sources_after d0 })

  abbrev Recorded : StoreDb → StoreDb → Type 0
  Recorded d0 d =
      (count_if (is_expected source commit checksum) d0.sources ≡ 1)
      × (d ≡ record d0 {
        sources = sources_after d0;
        revisions = revision_added now v ∷ d0.revisions;
      })

  insert-Recorded :
      (d0 d : StoreDb)
      → Checked d0 d
      → Outcome {E = StoreError} {A = Unit {0}}
          (λ _. Recorded d0)
          (λ _ _. Unit {0})
          (insert_revision (revision_added now v) d).0
          (insert_revision (revision_added now v) d).1
  unfolding insert_revision
  insert-Recorded d0 d h =
      elim (Bool-cases
        (exists (λ (r : RevisionRow). r.id == v.id) d.revisions || not (app_known d v.app_id))) [
          | inl clash ↦ rw clash tt
          | inr fresh ↦ rw fresh (
            h.0,
            ap (λ (x : StoreDb). record x { revisions = revision_added now v ∷ x.revisions }) h.1,
          )
        ]

  body-IsApplied :
      (d0 : StoreDb)
      → Triple
          (λ d. d ≡ d0)
          (apply_body now a v source commit checksum)
          (λ _. IsApplied d0)
          (λ _ _. Unit {0})
  unfolding apply_body update_sources update_instances
  body-IsApplied d0 =
      Triple-bind {Q = Counted d0} (Triple-stmt _ _ (λ d h. rw h (refl, refl)) (λ d h. tt)) λ n.
        Triple-bind {Q = λ _. Checked d0}
          (Triple-if (not (nat_eq n 1)) _ _ (λ _. Triple-raise _ (λ d h. tt))
            (λ e. Triple-pure tt (λ d h. (ground (arith, h.0), h.1))))
          λ _.
            Triple-bind {Q = λ _. Recorded d0} (Triple-stmt _ _ (insert-Recorded d0) (λ d h. tt))
              λ _.
                Triple-bind {Q = λ _. IsApplied d0}
                  (Triple-stmt _ _
                    (λ d h. record {
                      was_expected = h.0;
                      tables =
                          ap
                            (λ (x : StoreDb). record x {
                              instances =
                                  update_if (λ (r : InstanceRow). r.id == a.id)
                                    (instance_after now a) x.instances;
                            })
                            h.1;
                    })
                    (λ d h. tt))
                  λ _. Triple-pure tt (λ d h. h)

  abbrev pub Settled : StoreDb → Result StoreError (Unit {0}) → StoreDb → Type 0
  Settled d0 (ok u) d = IsApplied d0 d
  Settled d0 (err e) d = d ≡ d0

  -- Whatever the driver does, an update that returns has changed all three tables as it should, which
  -- it does only while the source has the expected commit and checksum; one that fails has changed
  -- nothing.
  pub apply-Settled :
      (c : Conn StoreDb)
      → let z = apply_successful_update now a v source commit checksum c in Settled c.db z.0 z.1.db
  unfolding apply_successful_update
  apply-Settled c = go (apply_successful_update now a v source commit checksum c).0 _ (
      (Triple-transaction {R = λ _ d. d ≡ c.db} database_failed
          (apply_body now a v source commit checksum) (body-IsApplied c.db) (λ e d h. h)).at
        c refl)
    where
      go :
          (r : Result StoreError (Unit {0})) (d : StoreDb)
          → Outcome (λ _. IsApplied c.db) (λ _ d. d ≡ c.db) r d
          → Settled c.db r d
      go (ok u) d h = h
      go (err e) d h = h
