-- ===== src/Store/Consistent/OfSources.antt =====
-- The statements on manifest sources keep the tables consistent.
use opendash.Prelude.{
  ◌≡◌, refl, String, Bool, true, false, not, Option, none, some, List, [], ◌∷◌, arith, eq_iff, ◌==◌,
  keep, exists, update_if, Bool-cases, inl, inr,
}
use opendash.Store.Rows.{InstanceRow, SourceRow}
use opendash.Store.Apps.{instance_clash, source_known}
use opendash.Store.Operations.{app_known, update_sources}
use opendash.Store.Sources.{insert_source, delete_source, points_to}
use opendash.Store.Keys.{Distinct-keep, Distinct-update, exists-update, All-map, All-update_test}
use opendash.Store.Consistent.{Keeps, source_clash, exists_cons}

known_cons :
    (row : SourceRow) (rows : List SourceRow) (o : Option String)
    → source_known rows o ≡ true
    → source_known (row ∷ rows) o ≡ true
known_cons row rows none h = refl
known_cons row rows (some id) h = exists_cons _ row rows h

pub insert_source-IsConsistent : (row : SourceRow) → Keeps (insert_source row)
unfolding insert_source
insert_source-IsConsistent row db h = elim (Bool-cases (exists (source_clash row) db.sources)) [
  | inl clash ↦ rw clash h
  | inr fresh ↦ rw fresh (record {
    instance_keys = h.instance_keys;
    operation_keys = h.operation_keys;
    revision_keys = h.revision_keys;
    source_keys = (fresh, h.source_keys);
    one_active = h.one_active;
    operation_apps = h.operation_apps;
    revision_apps = h.revision_apps;
    instance_sources =
        All-map _ _ db.instances (λ r. known_cons row db.sources r.source_id) h.instance_sources;
  })
]

known-update :
    (p : SourceRow → Bool) (f : SourceRow → SourceRow) (rows : List SourceRow) (o : Option String)
    → ((s : SourceRow) → (f s).id ≡ s.id)
    → source_known rows o ≡ true
    → source_known (update_if p f rows) o ≡ true
known-update p f rows none same h = refl
known-update p f rows (some id) same h =
    rw (exists-update (λ (s : SourceRow). s.id == id) p f rows (λ s. rw (same s))) h

pub update_sources-IsConsistent :
    (p : SourceRow → Bool) (f : SourceRow → SourceRow)
    → ((s : SourceRow) → (f s).id ≡ s.id)
    → ((s : SourceRow) → (f s).source_url ≡ s.source_url)
    → Keeps (update_sources p f)
unfolding update_sources
update_sources-IsConsistent p f same_id same_url db h = record {
  instance_keys = h.instance_keys;
  operation_keys = h.operation_keys;
  revision_keys = h.revision_keys;
  source_keys =
      Distinct-update source_clash p f db.sources (λ x y. rw (same_id y, same_url y))
        (λ x y. rw (same_id x, same_url x)) h.source_keys;
  one_active = h.one_active;
  operation_apps = h.operation_apps;
  revision_apps = h.revision_apps;
  instance_sources =
      All-map _ _ db.instances (λ r. known-update p f db.sources r.source_id same_id)
        h.instance_sources;
}

known_source-keep :
    (id other : String) (rows : List SourceRow)
    → (other == id) ≡ false
    → exists (λ (s : SourceRow). s.id == other) rows ≡ true
    → exists (λ (s : SourceRow). s.id == other) (keep (λ (s : SourceRow). not (s.id == id)) rows)
      ≡ true
unfolding exists keep
known_source-keep id other [] ne h = h
known_source-keep id other (s ∷ rows) ne h =
    ground (arith, eq_iff s.id other, known_source-keep id other rows)

known-delete :
    (id : String) (rows : List SourceRow) (o : Option String)
    → points_to id o ≡ false
    → source_known rows o ≡ true
    → source_known (keep (λ (s : SourceRow). not (s.id == id)) rows) o ≡ true
known-delete id rows none ne h = refl
known-delete id rows (some other) ne h = known_source-keep id other rows ne h

pub delete_source-IsConsistent : (id : String) → Keeps (delete_source id)
unfolding delete_source
delete_source-IsConsistent id db h = record {
  instance_keys =
      Distinct-update instance_clash _ _ db.instances (λ x y. refl) (λ x y. refl) h.instance_keys;
  operation_keys = h.operation_keys;
  revision_keys = h.revision_keys;
  source_keys = Distinct-keep source_clash _ db.sources h.source_keys;
  one_active = h.one_active;
  operation_apps = All-map _ _ db.operations (λ r k. known r.app_id k) h.operation_apps;
  revision_apps = All-map _ _ db.revisions (λ r k. known r.app_id k) h.revision_apps;
  instance_sources =
      All-update_test _ _ _ _ db.instances (λ r e k. refl)
        (λ r e k. known-delete id db.sources r.source_id e k) h.instance_sources;
}
  where
    known :
        (app : String)
        → app_known db app ≡ true
        → exists
            (λ (r : InstanceRow). r.id == app)
            (update_if
              (λ (r : InstanceRow). points_to id r.source_id)
              (λ r. record r { source_id = none })
              db.instances)
          ≡ true
    known app k =
        rw
          (exists-update (λ (r : InstanceRow). r.id == app) (λ r. points_to id r.source_id)
            (λ r. record r { source_id = none }) db.instances (λ r. refl))
          k
