-- ===== src/Store/Consistent.antt =====
-- The tables of applications, operations, revisions and sources between two requests.
pub mod OfSources
use opendash.Prelude.{
  ◌≡◌, refl, String, Bool, true, false, ◌||◌, ◌&&◌, not, Option, none, some, List, [], ◌∷◌, arith,
  eq_iff, ◌==◌, All, keep, exists, update_if, Bool-cases, inl, inr, Result,
}
use opendash.Store.Rows.{
  InstanceRow, OperationRow, RevisionRow, SourceRow, StoreDb, StoreError, empty_store,
}
use opendash.Store.Apps.{
  instance_clash, source_known, insert_instance, update_instances, delete_instance,
}
use opendash.Store.Operations.{
  is_active, active_for, app_known, two_active, insert_operation, update_operations,
  insert_revision, update_sources,
}
use opendash.Store.Sources.{insert_source, delete_source, points_to}
use opendash.Store.Keys.{
  Distinct, Distinct-keep, Distinct-update, exists-update, exists-keep_miss, All-keep,
  All-keep_test, All-map, All-update, All-update_test,
}

abbrev pub operation_clash : OperationRow → OperationRow → Bool
operation_clash row r = r.id == row.id

abbrev pub revision_clash : RevisionRow → RevisionRow → Bool
revision_clash row r = r.id == row.id

abbrev pub source_clash : SourceRow → SourceRow → Bool
source_clash row s = s.id == row.id || s.source_url == row.source_url

-- No two applications share an id, a catalogue id, a project or a path, no two sources an id or a URL;
-- an application has one active operation at most; what operations and revisions refer to is an
-- application, and what applications refer to is a source.
pub record IsConsistent (db : StoreDb) : Type 0 where
  pub instance_keys : Distinct instance_clash db.instances
  pub operation_keys : Distinct operation_clash db.operations
  pub revision_keys : Distinct revision_clash db.revisions
  pub source_keys : Distinct source_clash db.sources
  pub one_active : two_active db.operations ≡ false
  pub operation_apps : All (λ (r : OperationRow). app_known db r.app_id ≡ true) db.operations
  pub revision_apps : All (λ (r : RevisionRow). app_known db r.app_id ≡ true) db.revisions
  pub instance_sources :
      All (λ (r : InstanceRow). source_known db.sources r.source_id ≡ true) db.instances

-- The statement keeps the tables consistent, whether a constraint refuses it or not.
abbrev pub Keeps : {A : Type 0} → (StoreDb → Result StoreError A × StoreDb) → Type 0
Keeps f = (db : StoreDb) → IsConsistent db → IsConsistent (f db).1

pub empty_store-IsConsistent : IsConsistent empty_store
unfolding two_active
empty_store-IsConsistent = record {
  instance_keys = tt;
  operation_keys = tt;
  revision_keys = tt;
  source_keys = tt;
  one_active = refl;
  operation_apps = tt;
  revision_apps = tt;
  instance_sources = tt;
}

-- An application more keeps what is known.
pub exists_cons :
    {A : Type 0} (p : A → Bool) (x : A) (xs : List A)
    → exists p xs ≡ true
    → exists p (x ∷ xs) ≡ true
unfolding exists
exists_cons p x xs h = ground arith

pub insert_instance-IsConsistent : (row : InstanceRow) → Keeps (insert_instance row)
unfolding insert_instance
insert_instance-IsConsistent row db h =
    elim (Bool-cases
      (exists (instance_clash row) db.instances || not (source_known db.sources row.source_id))) [
        | inl clash ↦ rw clash h
        | inr fresh ↦ rw fresh (record {
          instance_keys = (ground arith, h.instance_keys);
          operation_keys = h.operation_keys;
          revision_keys = h.revision_keys;
          source_keys = h.source_keys;
          one_active = h.one_active;
          operation_apps =
              All-map _ _ db.operations (λ r. exists_cons _ row db.instances) h.operation_apps;
          revision_apps =
              All-map _ _ db.revisions (λ r. exists_cons _ row db.instances) h.revision_apps;
          instance_sources = (ground arith, h.instance_sources);
        })
      ]

-- An update that keeps the columns that a constraint reads.
pub record IsInner (f : InstanceRow → InstanceRow) : Type 0 where
  pub same_id : (r : InstanceRow) → (f r).id ≡ r.id
  pub same_catalog_id : (r : InstanceRow) → (f r).catalog_id ≡ r.catalog_id
  pub same_project : (r : InstanceRow) → (f r).project_name ≡ r.project_name
  pub same_path : (r : InstanceRow) → (f r).install_path ≡ r.install_path
  pub same_source : (r : InstanceRow) → (f r).source_id ≡ r.source_id

pub update_instances-IsConsistent :
    (id : String) (f : InstanceRow → InstanceRow) → IsInner f → Keeps (update_instances id f)
unfolding update_instances
update_instances-IsConsistent id f inner db h = record {
  instance_keys =
      Distinct-update instance_clash _ f db.instances
        (λ x y.
          rw (inner.same_id y, inner.same_catalog_id y, inner.same_project y, inner.same_path y))
        (λ x y.
          rw (inner.same_id x, inner.same_catalog_id x, inner.same_project x, inner.same_path x))
        h.instance_keys;
  operation_keys = h.operation_keys;
  revision_keys = h.revision_keys;
  source_keys = h.source_keys;
  one_active = h.one_active;
  operation_apps = All-map _ _ db.operations (λ r k. known r.app_id k) h.operation_apps;
  revision_apps = All-map _ _ db.revisions (λ r k. known r.app_id k) h.revision_apps;
  instance_sources =
      All-update _ _ f db.instances (λ r k. rw (inner.same_source r) k) h.instance_sources;
}
  where
    known :
        (app : String)
        → app_known db app ≡ true
        → exists
            (λ (r : InstanceRow). r.id == app)
            (update_if (λ (r : InstanceRow). r.id == id) f db.instances)
          ≡ true
    known app k =
        rw
          (exists-update (λ (r : InstanceRow). r.id == app) (λ r. r.id == id) f db.instances
            (λ r. rw (inner.same_id r)))
          k

-- Deleting an application leaves what is known of the others.
known-keep :
    (id app : String) (rows : List InstanceRow)
    → not (app == id) ≡ true
    → exists (λ (r : InstanceRow). r.id == app) rows ≡ true
    → exists (λ (r : InstanceRow). r.id == app) (keep (λ (r : InstanceRow). not (r.id == id)) rows)
      ≡ true
unfolding exists keep
known-keep id app [] ne h = h
known-keep id app (r ∷ rows) ne h = ground (arith, eq_iff r.id app, known-keep id app rows)

two_active-keep :
    (q : OperationRow → Bool) (rows : List OperationRow)
    → two_active rows ≡ false
    → two_active (keep q rows) ≡ false
unfolding two_active keep
two_active-keep q [] h = refl
two_active-keep q (r ∷ rows) h =
    ground (arith, two_active-keep q rows, exists-keep_miss (active_for r.app_id) q rows)

pub delete_instance-IsConsistent : (id : String) → Keeps (delete_instance id)
unfolding delete_instance
delete_instance-IsConsistent id db h = record {
  instance_keys = Distinct-keep instance_clash _ db.instances h.instance_keys;
  operation_keys = Distinct-keep operation_clash _ db.operations h.operation_keys;
  revision_keys = Distinct-keep revision_clash _ db.revisions h.revision_keys;
  source_keys = h.source_keys;
  one_active = two_active-keep _ db.operations h.one_active;
  operation_apps =
      All-keep_test _ _ _ db.operations (λ r. known-keep id r.app_id db.instances) h.operation_apps;
  revision_apps =
      All-keep_test _ _ _ db.revisions (λ r. known-keep id r.app_id db.instances) h.revision_apps;
  instance_sources = All-keep _ _ db.instances h.instance_sources;
}

pub insert_operation-IsConsistent : (row : OperationRow) → Keeps (insert_operation row)
unfolding insert_operation two_active
insert_operation-IsConsistent row db h =
    elim (Bool-cases (
      exists (λ (r : OperationRow). r.id == row.id) db.operations
      || not (app_known db row.app_id)
      || (is_active row.status && exists (active_for row.app_id) db.operations))) [
        | inl clash ↦ rw clash h
        | inr fresh ↦ rw fresh (record {
          instance_keys = h.instance_keys;
          operation_keys = (ground arith, h.operation_keys);
          revision_keys = h.revision_keys;
          source_keys = h.source_keys;
          one_active = ground (arith, h.one_active);
          operation_apps = (ground arith, h.operation_apps);
          revision_apps = h.revision_apps;
          instance_sources = h.instance_sources;
        })
      ]

pub update_operations-IsConsistent :
    (p : OperationRow → Bool) (f : OperationRow → OperationRow)
    → ((r : OperationRow) → (f r).id ≡ r.id)
    → ((r : OperationRow) → (f r).app_id ≡ r.app_id)
    → Keeps (update_operations p f)
unfolding update_operations
update_operations-IsConsistent p f same_id same_app db h =
    elim (Bool-cases (two_active (update_if p f db.operations))) [
      | inl clash ↦ rw clash h
      | inr fresh ↦ rw fresh (record {
        instance_keys = h.instance_keys;
        operation_keys =
            Distinct-update operation_clash p f db.operations (λ x y. rw (same_id y))
              (λ x y. rw (same_id x)) h.operation_keys;
        revision_keys = h.revision_keys;
        source_keys = h.source_keys;
        one_active = fresh;
        operation_apps = All-update _ p f db.operations (λ r k. rw (same_app r) k) h.operation_apps;
        revision_apps = h.revision_apps;
        instance_sources = h.instance_sources;
      })
    ]

pub insert_revision-IsConsistent : (row : RevisionRow) → Keeps (insert_revision row)
unfolding insert_revision
insert_revision-IsConsistent row db h =
    elim (Bool-cases (
      exists (λ (r : RevisionRow). r.id == row.id) db.revisions || not (app_known db row.app_id))) [
        | inl clash ↦ rw clash h
        | inr fresh ↦ rw fresh (record {
          instance_keys = h.instance_keys;
          operation_keys = h.operation_keys;
          revision_keys = (ground arith, h.revision_keys);
          source_keys = h.source_keys;
          one_active = h.one_active;
          operation_apps = h.operation_apps;
          revision_apps = (ground arith, h.revision_apps);
          instance_sources = h.instance_sources;
        })
      ]
