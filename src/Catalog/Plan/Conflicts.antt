-- ===== src/Catalog/Plan/Conflicts.antt =====
-- What the absence of conflicts in a plan rules out.
use opendash.Prelude.{
  ◌≡◌, refl, sym, ap, ◌∙◌, String, Bool, true, false, List, [], ◌∷◌, ◌++◌, map, arith, ◌==◌, exists,
  Result, ok, err,
}
use opendash.Models.Time.{Time}
use opendash.Models.App.{AppInstance}
use opendash.Models.Manifest.{Manifest}
use opendash.Models.Plan.{Conflict, InstallPlan}
use opendash.Catalog.Assess.{Library, evaluate_conflicts, installed_conflicts, conflict_if}
use opendash.Catalog.Plan.{
  build_install_plan, apply_config, plan_of, PlanError, Settings, planned_result, when_valid,
  default_project_name, install_path,
}
use opendash.Catalog.Validate.{validate_manifest, ManifestError}
use opendash.Sql.{stmt}
use opendash.Store.Rows.{InstanceRow, StoreDb}
use opendash.Store.Apps.{
  scan_instance, instance_row, instance_clash, source_known, null_text, create_app_instance,
  insert_instance,
}

append-nil : {A : Type 0} (xs ys : List A) → xs ++ ys ≡ [] → (xs ≡ []) × (ys ≡ [])
append-nil [] ys h = (refl, h)
append-nil (x ∷ xs) ys h = cc

conflict_if-nil :
    (b : Bool) (c : Conflict) (cs : List Conflict)
    → conflict_if b c cs ≡ []
    → (b ≡ false) × (cs ≡ [])
conflict_if-nil true c cs h = cc
conflict_if-nil false c cs h = (refl, h)

installed-nil :
    (lib : Library) (m : Manifest) (existing : List AppInstance)
    → installed_conflicts lib m existing ≡ []
    → exists (λ (i : AppInstance). i.catalog_id == m.id) existing ≡ false
unfolding exists
installed-nil lib m [] h = refl
installed-nil lib m (i ∷ rest) h =
    let f = conflict_if-nil (i.catalog_id == m.id) _ (installed_conflicts lib m rest) h in
    rw f.0 (installed-nil lib m rest f.1)

-- Where the evaluation finds no conflict, no installed application has the catalogue id, the project
-- name or the path of the plan.
abbrev IsFree : Manifest → String → String → List AppInstance → Type 0
IsFree m project path existing =
    (exists (λ (i : AppInstance). i.catalog_id == m.id) existing ≡ false)
    × (exists (λ (i : AppInstance). i.project_name == project) existing ≡ false)
    × (exists (λ (i : AppInstance). i.install_path == path) existing ≡ false)

conflicts-IsFree :
    (lib : Library) (m : Manifest) (project path : String) (existing : List AppInstance)
    → evaluate_conflicts lib m project path existing ≡ []
    → IsFree m project path existing
unfolding evaluate_conflicts
conflicts-IsFree lib m project path existing h =
    let f = append-nil (installed_conflicts lib m existing) _ h in
    let g =
      conflict_if-nil (exists (λ (i : AppInstance). i.project_name == project) existing) _ _ f.1 in
    let k =
      conflict_if-nil (exists (λ (i : AppInstance). i.install_path == path) existing) _ _ g.1 in
    (installed-nil lib m existing f.0, g.0, k.0)

-- The plan that is built is that of the manifest.
built_plan :
    (lib : Library) (m : Manifest) (apps_root : String) (existing : List AppInstance)
    (valid : Result ManifestError (Unit {0})) (settings : Result PlanError Settings)
    {plan : InstallPlan}
    → when_valid valid (planned_result lib m apps_root existing settings) ≡ ok plan
    → (s : Settings) × (plan_of lib m apps_root existing s ≡ plan)
built_plan lib m apps_root existing (err e) settings h = cc
built_plan lib m apps_root existing (ok u) (err e) h = cc
built_plan lib m apps_root existing (ok u) (ok s) h = (s, cc)

no_clash :
    (row : InstanceRow) (rows : List InstanceRow) (id catalog project path : String)
    → row.id ≡ id
    → row.catalog_id ≡ catalog
    → row.project_name ≡ project
    → row.install_path ≡ path
    → exists (λ (r : InstanceRow). r.id == id) rows ≡ false
    → exists (λ (i : AppInstance). i.catalog_id == catalog) (map scan_instance rows) ≡ false
    → exists (λ (i : AppInstance). i.project_name == project) (map scan_instance rows) ≡ false
    → exists (λ (i : AppInstance). i.install_path == path) (map scan_instance rows) ≡ false
    → exists (instance_clash row) rows ≡ false
unfolding exists
no_clash row [] id catalog project path ei ec ep eh h1 h2 h3 h4 = refl
no_clash row (r ∷ rows) id catalog project path ei ec ep eh h1 h2 h3 h4 =
    rw (ei, ec, ep, eh) (ground (arith, no_clash row rows id catalog project path ei ec ep eh))

inserted :
    (row : InstanceRow) (db : StoreDb)
    → exists (instance_clash row) db.instances ≡ false
    → source_known db.sources row.source_id ≡ true
    → (insert_instance row db).0 ≡ ok tt
unfolding insert_instance
inserted row db h k = rw (h, k) refl

-- Where a plan without conflicts was built from all the applications of the store, the application
-- that it describes can be created: with a source that is known and an id that is not in use, no key
-- of the table refuses it, while the driver does not fail.
pub plan-create :
    (lib : Library) (m : Manifest) (apps_root : String) (overrides : List (String × String))
    (db : StoreDb) {plan : InstallPlan} (now : Time) (a : AppInstance)
    → build_install_plan lib m apps_root overrides (map scan_instance db.instances) ≡ ok plan
    → plan.conflicts ≡ []
    → a.catalog_id ≡ plan.app_id
    → a.project_name ≡ plan.project_name
    → a.install_path ≡ plan.project_path
    → exists (λ (r : InstanceRow). r.id == a.id) db.instances ≡ false
    → source_known db.sources (null_text a.source_id) ≡ true
    → (create_app_instance now a (record { db = db; faults = [] })).0 ≡ ok tt
unfolding build_install_plan create_app_instance stmt
plan-create lib m apps_root overrides db {plan} now a built free ec ep eh fresh known =
    let f =
      built_plan lib m apps_root (map scan_instance db.instances) (validate_manifest m)
        (apply_config m overrides) built in
    let e : plan_of lib m apps_root (map scan_instance db.instances) f.0 ≡ plan = f.1 in
    let g =
      conflicts-IsFree lib m (default_project_name m) (install_path lib apps_root m)
        (map scan_instance db.instances) (ap (λ (p : InstallPlan). p.conflicts) e ∙ free) in
    inserted (instance_row now a) db
      (no_clash (instance_row now a) db.instances a.id m.id (default_project_name m)
        (install_path lib apps_root m) refl (ec ∙ sym (ap (λ (p : InstallPlan). p.app_id) e))
        (ep ∙ sym (ap (λ (p : InstallPlan). p.project_name) e))
        (eh ∙ sym (ap (λ (p : InstallPlan). p.project_path) e)) fresh g.0 g.1 g.2)
      known
