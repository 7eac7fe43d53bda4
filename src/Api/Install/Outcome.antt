-- ===== src/Api/Install/Outcome.antt =====
-- What an installation leaves, whatever fails.
use opendash.Prelude.{
  ◌≡◌, refl, inl, inr, ℕ, String, true, false, Option, none, some, List, [], Result, ok, err, ◌==◌,
  arith, Bool-cases, nat_eq, length, map,
}
use opendash.Models.Manifest.{Manifest}
use opendash.Models.Plan.{InstallPlan, PlannedConfig}
use opendash.Models.App.{AppInstance, Revision}
use opendash.Sql.{Conn, pure, try}
use opendash.Sql.Triple.{Triple, Outcome, Triple-pure, Triple-stmt, Triple-bind, Triple-try}
use opendash.Store.Rows.{StoreDb, StoreError, Store}
use opendash.Store.Apps.{
  scan_instance, instance_row, insert_instance, create_app_instance, list_app_instances,
}
use opendash.Store.Operations.{
  operation_row, revision_row, insert_operation, insert_revision, create_operation, create_revision,
  get_active_operation_for_app,
}
use opendash.Catalog.Plan.{PlanError, Settings, build_install_plan, apply_config}
use opendash.Catalog.Allocate.{PortMap, Reserved, PortError, host_ports}
use opendash.Catalog.Compose.{Texts, ComposeError}
use opendash.Catalog.Compose.Inline.{Rendered, render_compose_files}
use opendash.Api.Operations.{refused, is_active_found}
use opendash.Api.Install.{
  Installer, Loaded, Answer, new_instance, new_revision, install_operation, release, with_operation,
  with_revision, with_application, with_rendered, with_settings, with_ports, with_plan,
  with_existing, with_manifest, install_app,
}
use opendash.Sources.Service.Updates.{read-Triple}
use opendash.Api.Install.Expected.{is_late, IsPrepared, IsOutcome}
use opendash.Api.Install.Inserted.{
  IsReleased, release-IsReleased, after, insert-Triple, with_row, with_revision_row,
  with_operation_row, insert_instance-cases, insert_revision-cases, insert_operation-cases,
}

kept-IsReleased : (reserved : Reserved) → IsReleased reserved reserved
kept-IsReleased reserved p = ground arith

module _ (env : Installer) (reserved : Reserved) (id : String) (loaded : Loaded) (overrides : Texts)
    (d0 : StoreDb) where
  -- from a store, to the outcome
  abbrev Leads : Store Answer → StoreDb → Type 0
  Leads m d1 = Triple (λ d. d ≡ d1) m (IsOutcome env reserved id loaded overrides d0) (λ _ _. ⊥)

  refusal :
      (status : ℕ) (code : String) (reserved' : Reserved)
      → IsReleased reserved reserved'
      → is_late code ≡ false
      → Leads (pure (refused status code, reserved')) d0
  refusal status code reserved' r early = Triple-pure _ (λ d h. (r, rw early h))

  late_refusal :
      (status : ℕ) (code : String) (ports : PortMap) (d1 : StoreDb)
      → is_late code ≡ true
      → Leads (pure (refused status code, release ports reserved)) d1
  late_refusal status code ports d1 late =
      Triple-pure _ (λ d h. (release-IsReleased ports reserved, rw late tt))

  operation-Leads :
      (inst : AppInstance) (rev : Revision) (ports : PortMap) (o : Option (Unit {0}))
      → IsPrepared env reserved id loaded overrides d0 inst rev ports
      → let d2 = with_revision_row env.now rev (with_row env.now inst d0) in
        Leads
          (with_operation env inst ports reserved o)
          (after (with_operation_row env.now (install_operation env)) o d2)
  operation-Leads inst rev ports none k = late_refusal 500 "operation_error" ports _ refl
  operation-Leads inst rev ports (some u) k = Triple-pure _ (λ d h. (ports, rev, k, refl, refl, h))

  any-Triple :
      {A : Type 0} (m : Store A) (P : StoreDb → Type 0) {R : StoreError → StoreDb → Type 0}
      → Triple P (try m) (λ _ _. Unit {0}) R
  any-Triple {A} m P = Triple-try (record { at = λ c p. go (m c).0 (m c).1.db })
    where
      go :
          (r : Result StoreError A) (d : StoreDb)
          → Outcome (λ _ _. Unit {0}) (λ (_ : StoreError) (_ : StoreDb). Unit {0}) r d
      go (ok a) d = tt
      go (err e) d = tt

  revision-Leads :
      (inst : AppInstance) (rev : Revision) (ports : PortMap) (o : Option (Unit {0}))
      → IsPrepared env reserved id loaded overrides d0 inst rev ports
      → Leads
          (with_revision env inst ports reserved o)
          (after (with_revision_row env.now rev) o (with_row env.now inst d0))
  unfolding create_operation
  revision-Leads inst rev ports none k =
      Triple-bind {Q = λ _ _. Unit {0}} (any-Triple _ _)
        λ u. Triple-pure _ (λ d h. (release-IsReleased ports reserved, tt))
  revision-Leads inst rev ports (some u) k =
      let d2 = with_revision_row env.now rev (with_row env.now inst d0) in
      let op = install_operation env in
      Triple-bind {Q = λ o d. d ≡ after (with_operation_row env.now op) o d2}
        (insert-Triple (insert_operation (operation_row env.now op)) (with_operation_row env.now op)
          d2 (insert_operation-cases env.now op d2))
        λ o. operation-Leads inst rev ports o k

  application-Leads :
      (inst : AppInstance) (rev : Revision) (ports : PortMap) (o : Option (Unit {0}))
      → IsPrepared env reserved id loaded overrides d0 inst rev ports
      → Leads (with_application env inst rev ports reserved o) (after (with_row env.now inst) o d0)
  unfolding create_revision
  application-Leads inst rev ports none k =
      refusal 409 "already_installed" (release ports reserved) (release-IsReleased ports reserved)
        refl
  application-Leads inst rev ports (some u) k =
      let d1 = with_row env.now inst d0 in
      Triple-bind {Q = λ o d. d ≡ after (with_revision_row env.now rev) o d1}
        (insert-Triple (insert_revision (revision_row env.now rev)) (with_revision_row env.now rev)
          d1 (insert_revision-cases env.now rev d1))
        λ o. revision-Leads inst rev ports o k

  -- What is known of the plan when the ports are asked for.
  abbrev IsPlanned : Manifest → String → InstallPlan → Type 0
  IsPlanned m source_id plan =
      (loaded ≡ some (m, source_id))
      × (build_install_plan env.library m env.apps_root overrides
            (map scan_instance (env.by_name d0.instances))
          ≡ ok plan)
      × (nat_eq (length plan.conflicts) 0 ≡ true)

  rendered-Leads :
      (m : Manifest) (source_id : String) (plan : InstallPlan) (ports : PortMap) (values : Texts)
      (planned : List PlannedConfig) (r : Result ComposeError Rendered)
      → IsPlanned m source_id plan
      → (host_ports env.listeners reserved m [] env.next_listener).0 ≡ ok ports
      → apply_config m overrides ≡ ok (values, planned)
      → render_compose_files env.files m plan ports values plan.project_path ≡ r
      → Leads (with_rendered env id m source_id plan ports values reserved r) d0
  unfolding create_app_instance
  rendered-Leads m source_id plan ports values planned (err e) k p c f =
      refusal 500 "render_error" (release ports reserved) (release-IsReleased ports reserved) refl
  rendered-Leads m source_id plan ports values planned (ok (path, text, env_text)) k p c f =
      let inst = new_instance env id m source_id plan ports path in
      Triple-bind {Q = λ o d. d ≡ after (with_row env.now inst) o d0}
        (insert-Triple (insert_instance (instance_row env.now inst)) (with_row env.now inst) d0
          (insert_instance-cases env.now inst d0))
        λ o. application-Leads inst (new_revision env m values path) ports o (
          m,
          source_id,
          plan,
          values,
          planned,
          (path, text, env_text),
          k.0,
          k.1,
          k.2,
          p,
          c,
          f,
          refl,
          refl,
        )

  settings-Leads :
      (m : Manifest) (source_id : String) (plan : InstallPlan) (ports : PortMap)
      (r : Result PlanError Settings)
      → IsPlanned m source_id plan
      → (host_ports env.listeners reserved m [] env.next_listener).0 ≡ ok ports
      → apply_config m overrides ≡ r
      → Leads (with_settings env id m source_id plan ports reserved r) d0
  settings-Leads m source_id plan ports (err e) k p c =
      refusal 400 "config_error" (release ports reserved) (release-IsReleased ports reserved) refl
  settings-Leads m source_id plan ports (ok (values, planned)) k p c =
      rendered-Leads m source_id plan ports values planned
        (render_compose_files env.files m plan ports values plan.project_path) k p c refl

  ports-Leads :
      (m : Manifest) (source_id : String) (plan : InstallPlan) (r : Result PortError PortMap)
      → IsPlanned m source_id plan
      → (host_ports env.listeners reserved m [] env.next_listener).0 ≡ r
      → Leads (with_ports env id m source_id overrides plan reserved r) d0
  ports-Leads m source_id plan (err e) k p =
      refusal 500 "port_allocation_failed" reserved (kept-IsReleased reserved) refl
  ports-Leads m source_id plan (ok ports) k p =
      settings-Leads m source_id plan ports (apply_config m overrides) k p refl

  plan-Leads :
      (m : Manifest) (source_id : String) (r : Result PlanError InstallPlan)
      → loaded ≡ some (m, source_id)
      → build_install_plan env.library m env.apps_root overrides
          (map scan_instance (env.by_name d0.instances))
        ≡ r
      → Leads (with_plan env id m source_id overrides reserved r) d0
  unfolding get_active_operation_for_app
  plan-Leads m source_id (err e) l q =
      refusal 400 "invalid_manifest" reserved (kept-IsReleased reserved) refl
  plan-Leads m source_id (ok plan) l q = elim (Bool-cases (nat_eq (length plan.conflicts) 0)) [
    | inl e ↦ rw e (
        Triple-bind {Q = λ _ d. d ≡ d0} (Triple-try (read-Triple _ (λ d. d ≡ d0))) λ active.
          elim (Bool-cases (is_active_found active)) [
            | inl f ↦
                rw f (refusal 409 "operation_in_progress" reserved (kept-IsReleased reserved) refl)
            | inr f ↦ rw f (
                ports-Leads m source_id plan
                  (host_ports env.listeners reserved m [] env.next_listener).0 (l, q, e) refl)
          ])
    | inr e ↦ rw e (refusal 409 "conflict" reserved (kept-IsReleased reserved) refl)
  ]

  -- what the listing of the applications gives
  abbrev IsListed : Option (List AppInstance) → StoreDb → Type 0
  IsListed none d = d ≡ d0
  IsListed (some existing) d = (d ≡ d0) × (existing ≡ map scan_instance (env.by_name d0.instances))

  existing-Leads :
      (m : Manifest) (source_id : String) (o : Option (List AppInstance))
      → loaded ≡ some (m, source_id)
      → Triple
          (IsListed o)
          (with_existing env id m source_id overrides reserved o)
          (IsOutcome env reserved id loaded overrides d0)
          (λ _ _. ⊥)
  existing-Leads m source_id none l =
      refusal 500 "store_error" reserved (kept-IsReleased reserved) refl
  existing-Leads m source_id (some existing) l = record { at = λ c p. (go p.1).at c p.0 }
    where
      go :
          existing ≡ map scan_instance (env.by_name d0.instances)
          → Leads (with_existing env id m source_id overrides reserved (some existing)) d0
      go e = rw e (plan-Leads m source_id _ l refl)

  install-Leads : Leads (install_app env id loaded overrides reserved) d0
  unfolding install_app list_app_instances
  install-Leads = elim (Bool-cases (id == "")) [
    | inl e ↦ rw e (refusal 400 "missing_id" reserved (kept-IsReleased reserved) refl)
    | inr e ↦ rw e (manifest loaded refl)
  ]
    where
      manifest : (o : Loaded) → loaded ≡ o → Leads (with_manifest env id overrides reserved o) d0
      manifest none l = refusal 404 "not_found" reserved (kept-IsReleased reserved) refl
      manifest (some (m, source_id)) l =
          Triple-bind {Q = IsListed}
            (Triple-try (Triple-stmt _ _ (λ d h. (h, rw h refl)) (λ d h. h)))
            λ o. existing-Leads m source_id o l

-- Whatever the driver does, InstallApp returns a reply. A refusal leaves every port free that was not reserved and, unless
-- the revision or the operation could not be stored, the store as it was. An acceptance has added the application, its revision
-- and its pending operation, and nothing else, and has reserved the ports that were allocated for it: the application has the requested id of
-- the catalogue, the name and version of the manifest that was loaded, its plan's project and path, and endpoints at the allocated
-- ports, and the revision has the accepted settings. The plan, over the stored applications, had no conflict.
pub install_app-IsOutcome :
    (env : Installer) (reserved : Reserved) (id : String) (loaded : Loaded) (overrides : Texts)
    (c : Conn StoreDb)
    → (answer : Answer) × ((install_app env id loaded overrides reserved c).0 ≡ ok answer)
      × IsOutcome env reserved id loaded overrides c.db answer
          (install_app env id loaded overrides reserved c).1.db
install_app-IsOutcome env reserved id loaded overrides c =
    go (install_app env id loaded overrides reserved c).0
      ((install-Leads env reserved id loaded overrides c.db).at c refl)
  where
    d' : StoreDb
    d' = (install_app env id loaded overrides reserved c).1.db

    go :
        (r : Result StoreError Answer)
        → Outcome (IsOutcome env reserved id loaded overrides c.db) (λ _ _. ⊥) r d'
        → (answer : Answer) × (r ≡ ok answer)
          × IsOutcome env reserved id loaded overrides c.db answer d'
    go (ok answer) h = (answer, refl, h)
    go (err e) h = absurd h
