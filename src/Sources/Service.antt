-- ===== src/Sources/Service.antt =====
-- internal/sources/service.go: the service over the store and the resolver. What the resolver answers, the
-- clock, new ids, the JSON coder and the orders of rows are arguments.
pub mod Updates
pub mod Added
pub mod Tests
use Prim.Native.String.{◌++◌ as ◌<>◌}
use opendash.Prelude.{
  String, Bool, true, false, ◌||◌, ◌&&◌, not, Option, none, some, List, [], ◌∷◌, ◌++◌, map, Result,
  ok, err, map_err, or_err, reject_if, nat_eq, ◌==◌, if◌then◌else◌, keep, length,
}
use opendash.Models.Time.{Time}
use opendash.Models.Status.{SourceTrust}
use opendash.Models.App.{AppInstance, Revision}
use opendash.Models.Manifest.{Manifest, ManifestUpgrade}
use opendash.Models.Plan.{InstallPlan}
use opendash.Models.Source.{
  ManifestSource, SourcePreview, SourceListItem, UpdateChange, UpdatePreview,
}
use opendash.Sql.{Conn, Sql, pure, raise, lift, try, ◌>>=◌, ◌>>◌}
use opendash.Store.Rows.{InstanceRow, RevisionRow, SourceRow, StoreDb, StoreError, Store}
use opendash.Store.Apps.{list_app_instances}
use opendash.Store.Operations.{get_latest_revision}
use opendash.Store.Sources.{
  create_manifest_source, get_manifest_source, get_manifest_source_by_url, list_manifest_sources,
  delete_manifest_source, update_manifest_source_trust,
}
use opendash.Catalog.Assess.{Library}
use opendash.Catalog.Plan.{PlanError, build_install_plan}
use opendash.Github.Url.{Url, UrlError, UrlLibrary, parse_url}
use opendash.Sources.Diff.{
  diff_strings, diff_ports, diff_volumes, permission_diff, image_change_summaries,
  volume_change_summaries, port_change_summaries, permission_change_summaries, rollback_safe,
  migration_risk, requires_acknowledgement,
}

pub data SourceError : Type 0 where
  url_refused : UrlError → SourceError
  store_failed : StoreError → SourceError
  current_plan_refused new_plan_refused : PlanError → SourceError
  resolve_failed not_confirmed already_exists not_from_source no_revision bad_manifest : SourceError

abbrev pub Sources : Type 0 → Type 0
Sources = Sql SourceError StoreDb

abbrev pub of_result :
    {A : Type 0} → Result StoreError A × Conn StoreDb → Result SourceError A × Conn StoreDb
of_result (r, c) = (map_err store_failed r, c)

-- a call of the store
unfoldable pub of_store : {A : Type 0} → Store A → Sources A
of_store m c = of_result (m c)

-- what Resolve gives: the commit, the checksum and the manifest
pub record Resolved : Type 0 where
  pub commit : String
  pub checksum : String
  pub manifest : Manifest

pub record ServiceLibrary : Type 0 where
  pub catalog : Library
  pub urls : UrlLibrary
  pub encode : Manifest → String
  pub decode : String → Option Manifest
  -- what json.Unmarshal leaves of a manifest, where its error is ignored, and of saved settings
  pub decode_fields : String → Manifest
  pub decode_config : String → List (String × String)
  pub newest_revisions : List RevisionRow → List RevisionRow
  pub newest_sources : List SourceRow → List SourceRow
  pub by_name : List InstanceRow → List InstanceRow

abbrev trust_of : Option ManifestSource → SourceTrust
trust_of none = SourceTrust.untrusted
trust_of (some src) = src.trust

abbrev source_preview : String → Url → Resolved → SourceTrust → SourcePreview
source_preview raw u res trust = record {
  source_url = raw;
  owner = u.owner;
  repo = u.repo;
  path = u.path;
  ref = u.ref;
  commit_sha = res.commit;
  checksum = res.checksum;
  trust = trust;
  manifest = res.manifest;
}

-- Preview
unfoldable pub preview : ServiceLibrary → (Url → Option Resolved) → String → Sources SourcePreview
unfolding parse_url
preview lib resolve raw = do
  u ← lift (map_err url_refused (parse_url lib.urls raw))
  res ← lift (or_err (resolve u) resolve_failed)
  existing ← try (of_store (get_manifest_source_by_url raw))
  pure (source_preview raw u res (trust_of existing))

abbrev pub new_source : ServiceLibrary → Time → String → String → Url → Resolved → ManifestSource
new_source lib now id raw u res = record {
  id = id;
  source_url = raw;
  owner = u.owner;
  repo = u.repo;
  path = u.path;
  ref = u.ref;
  commit_sha = res.commit;
  manifest_json = lib.encode res.manifest;
  checksum = res.checksum;
  trust = SourceTrust.user_trusted;
  created_at = now;
  updated_at = now;
}

abbrev is_there : {A : Type 0} → Option A → Bool
is_there none = false
is_there (some a) = true

-- Add
unfoldable pub add :
    ServiceLibrary
    → (Url → Option Resolved)
    → Time
    → String
    → String
    → Bool
    → Sources ManifestSource
unfolding parse_url
add lib resolve now id raw confirmed = do
  lift (reject_if (not confirmed) not_confirmed)
  u ← lift (map_err url_refused (parse_url lib.urls raw))
  existing ← try (of_store (get_manifest_source_by_url raw))
  lift (reject_if (is_there existing) already_exists)
  res ← lift (or_err (resolve u) resolve_failed)
  of_store (create_manifest_source now (new_source lib now id raw u res))
  pure (new_source lib now id raw u res)

abbrev list_item : ServiceLibrary → ManifestSource → SourceListItem
list_item lib src = record {
  id = src.id;
  source_url = src.source_url;
  owner = src.owner;
  repo = src.repo;
  path = src.path;
  ref = src.ref;
  commit_sha = src.commit_sha;
  checksum = src.checksum;
  trust = src.trust;
  app_id = (lib.decode_fields src.manifest_json).id;
  name = (lib.decode_fields src.manifest_json).name;
  version = (lib.decode_fields src.manifest_json).version;
  updated_at = src.updated_at;
}

-- List
unfoldable pub list : ServiceLibrary → Sources (List SourceListItem)
list lib = do
  sources ← of_store (list_manifest_sources lib.newest_sources)
  pure (map (list_item lib) sources)

-- Remove
unfoldable pub remove_source : String → Sources (Unit {0})
remove_source id = of_store (delete_manifest_source id)

-- GetManifest
unfoldable pub get_manifest : ServiceLibrary → String → Sources Manifest
get_manifest lib source_id = do
  src ← of_store (get_manifest_source source_id)
  lift (or_err (lib.decode src.manifest_json) bad_manifest)

abbrev pub stored_url : ManifestSource → Url
stored_url src = record {
  raw = "";
  owner = src.owner;
  repo = src.repo;
  ref = src.ref;
  path = src.path;
  is_tree = false;
}

-- the same commit with other content
abbrev pub is_drifted : ManifestSource → Resolved → Bool
is_drifted src res = res.commit == src.commit_sha && not (res.checksum == src.checksum)

-- src.Trust is neither changed nor untrusted
abbrev pub is_trusted : SourceTrust → Bool
is_trusted SourceTrust.changed = false
is_trusted SourceTrust.untrusted = false
is_trusted _ = true

abbrev pub downgrade : Time → ManifestSource → Resolved → Sources (Unit {0})
downgrade now src res =
    if is_drifted src res && is_trusted src.trust
    then try (of_store (update_manifest_source_trust now src.id SourceTrust.changed)) >> pure tt
    else pure tt

abbrev change_if : Bool → String → String → String → String → List UpdateChange
change_if b kind before after summary =
    if b
    then record { kind = kind; target = kind; before = before; after = after; summary = summary }
      ∷ []
    else []

abbrev upgrade_text : (ManifestUpgrade → String) → Option ManifestUpgrade → List String
upgrade_text f none = []
upgrade_text f (some u) = if f u == "" then [] else f u ∷ []

abbrev rollback_text : Bool → String
rollback_text true =
    "On runtime or health-gate failure OpenDash will attempt to re-apply the prior Compose configuration; data is not reverted."
rollback_text false =
    "The publisher does not declare Compose rollback safe; automatic rollback will not be attempted."

-- the preview, once both plans are built
unfoldable pub update_preview_of :
    ServiceLibrary
    → AppInstance
    → ManifestSource
    → Resolved
    → Manifest
    → InstallPlan
    → InstallPlan
    → UpdatePreview
unfolding permission_diff requires_acknowledgement permission_change_summaries
    image_change_summaries volume_change_summaries port_change_summaries
update_preview_of lib inst src res current old new =
    let sort = lib.catalog.sort_strings in
    let quote = lib.catalog.quote in
    let added_images = diff_strings sort new.images old.images in
    let removed_images = diff_strings sort old.images new.images in
    let added_ports = diff_ports new.ports old.ports in
    let removed_ports = diff_ports old.ports new.ports in
    let added_volumes = diff_volumes new.volumes old.volumes in
    let removed_volumes = diff_volumes old.volumes new.volumes in
    let diff = permission_diff current.permissions res.manifest.permissions in
    let blocked =
      if is_drifted src res
      then "source returned inconsistent content for the stored immutable commit" ∷ []
      else [] in
    record {
      app_id = inst.id;
      current_version = current.version;
      new_version = res.manifest.version;
      current_commit = src.commit_sha;
      new_commit = res.commit;
      new_checksum = res.checksum;
      current_manifest = current;
      new_manifest = res.manifest;
      images = new.images;
      added_images = added_images;
      removed_images = removed_images;
      ports = new.ports;
      added_ports = added_ports;
      removed_ports = removed_ports;
      volumes = new.volumes;
      added_volumes = added_volumes;
      removed_volumes = removed_volumes;
      environment = new.environment;
      permissions = new.permissions;
      permission_diff = diff;
      risks = new.risks;
      changes =
          change_if (not (res.commit == src.commit_sha)) "commit" src.commit_sha res.commit
            "new source commit discovered"
          ++ (change_if (not (res.checksum == src.checksum)) "checksum" src.checksum res.checksum
                "manifest content changed"
              ++ (change_if (not (current.version == res.manifest.version)) "version"
                    current.version res.manifest.version
                    ("version " <> (current.version <> (" -> " <> res.manifest.version)))
                  ++ (image_change_summaries quote added_images removed_images
                      ++ (volume_change_summaries quote added_volumes removed_volumes
                          ++ (port_change_summaries quote added_ports removed_ports
                              ++ permission_change_summaries quote diff)))));
      can_update =
          nat_eq (length blocked) 0
          && (not (res.commit == src.commit_sha) || not (res.checksum == src.checksum));
      blocked_reasons = blocked;
      migration_disclosures =
          "Compose containers are recreated while existing project identity and retained data volumes are reused."
          ∷ "A Compose rollback does not roll back database or volume contents."
          ∷ upgrade_text (λ (u : ManifestUpgrade). u.migration_risk) res.manifest.upgrade;
      rollback_disclosures =
          ("The prior generated revision remains pinned to commit " <> (src.commit_sha <> "."))
          ∷ rollback_text (rollback_safe res.manifest.upgrade)
          ∷ upgrade_text (λ (u : ManifestUpgrade). u.rollback_notes) res.manifest.upgrade;
      requires_acknowledgement = requires_acknowledgement diff removed_volumes res.manifest.upgrade;
    }

abbrev saved_config : ServiceLibrary → String → List (String × String)
saved_config lib json = if json == "" then [] else lib.decode_config json

abbrev plan_for :
    ServiceLibrary
    → String
    → String
    → String
    → List AppInstance
    → Manifest
    → Result PlanError InstallPlan
plan_for lib apps_root json id existing m =
    build_install_plan lib.catalog m apps_root (saved_config lib json)
      (keep (λ (e : AppInstance). not (e.id == id)) existing)

-- UpdatePreview
unfoldable pub update_preview :
    ServiceLibrary → (Url → Option Resolved) → Time → String → AppInstance → Sources UpdatePreview
unfolding update_preview_of build_install_plan
update_preview lib resolve now apps_root inst = do
  lift (reject_if (inst.source_id == "") not_from_source)
  src ← of_store (get_manifest_source inst.source_id)
  found ← try (of_store (get_latest_revision lib.newest_revisions inst.id))
  rev ← lift (or_err found no_revision)
  res ← lift (or_err (resolve (stored_url src)) resolve_failed)
  downgrade now src res
  existing ← of_store (list_app_instances lib.by_name)
  old ← lift (
      map_err current_plan_refused
        (plan_for lib apps_root rev.config_json inst.id existing rev.manifest))
  new ← lift (
      map_err new_plan_refused
        (plan_for lib apps_root rev.config_json inst.id existing res.manifest))
  pure (update_preview_of lib inst src res rev.manifest old new)
