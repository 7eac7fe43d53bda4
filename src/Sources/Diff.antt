-- ===== src/Sources/Diff.antt =====
-- internal/sources/service.go: the differences between the current and the new plan of an application,
-- and whether an update must be acknowledged. `quote` is the verb %q, `sort_strings` is sort.Strings.
use Prim.Native.String.{◌++◌ as ◌<>◌}
use opendash.Prelude.{
  String, Bool, true, false, ◌||◌, ◌&&◌, not, Option, none, some, List, [], ◌∷◌, ◌++◌, map, ltb,
  ◌==◌, if◌then◌else◌, length, keep, exists, int_text,
}
use opendash.Prelude.Maps.{get, put, text_key}
use opendash.Models.Manifest.{ManifestPermission, ManifestUpgrade}
use opendash.Models.Plan.{PlannedPort, PlannedVolume}
use opendash.Models.Source.{PermissionDiff, UpdateChange}

-- the elements of the first list whose key no element of the second has
unfoldable pub diff_by : {A : Type 0} → (A → String) → List A → List A → List A
unfolding keep exists
diff_by key a b = keep (λ v. not (exists (λ w. key w == key v) b)) a

-- diffStrings
abbrev pub diff_strings : (List String → List String) → List String → List String → List String
diff_strings sort_strings a b = sort_strings (diff_by (λ s. s) a b)

-- portKey
abbrev pub port_key : PlannedPort → String
port_key p = int_text p.container_port <> ("/" <> p.kind)

-- diffPorts
abbrev pub diff_ports : List PlannedPort → List PlannedPort → List PlannedPort
diff_ports a b = diff_by port_key a b

-- volumeKey
abbrev pub volume_key : PlannedVolume → String
volume_key v = v.name

-- diffVolumes
abbrev pub diff_volumes : List PlannedVolume → List PlannedVolume → List PlannedVolume
diff_volumes a b = diff_by volume_key a b

-- the map of the permissions by their kinds
unfoldable pub permission_map :
    List ManifestPermission
    → List (String × ManifestPermission)
    → List (String × ManifestPermission)
permission_map [] m = m
permission_map (p ∷ ps) m = permission_map ps (put p.kind p m)

abbrev pub same_bool : Bool → Bool → Bool
same_bool true b = b
same_bool false b = not b

abbrev pub next_state : ManifestPermission → Option ManifestPermission → String
next_state p none = "added"
next_state p (some c) = if same_bool c.required p.required then "unchanged" else "changed"

abbrev pub diff_entry : ManifestPermission → String → PermissionDiff
diff_entry p state = record {
  kind = p.kind;
  description = p.description;
  required = p.required;
  state = state;
}

abbrev pub next_entries :
    List (String × ManifestPermission) → List ManifestPermission → List PermissionDiff
next_entries cur [] = []
next_entries cur (p ∷ ps) = diff_entry p (next_state p (get p.kind cur)) ∷ next_entries cur ps

abbrev pub removed_entry :
    ManifestPermission → Option ManifestPermission → List PermissionDiff → List PermissionDiff
removed_entry p none rest = diff_entry p "removed" ∷ rest
removed_entry p (some q) rest = rest

abbrev pub removed_entries :
    List (String × ManifestPermission) → List ManifestPermission → List PermissionDiff
removed_entries nxt [] = []
removed_entries nxt (p ∷ ps) = removed_entry p (get p.kind nxt) (removed_entries nxt ps)

-- permissionDiff
unfoldable pub permission_diff :
    List ManifestPermission → List ManifestPermission → List PermissionDiff
unfolding permission_map get put
permission_diff current next =
    next_entries (permission_map current []) next
    ++ removed_entries (permission_map next []) current

abbrev change : String → String → String → UpdateChange
change kind target summary = record {
  kind = kind;
  target = target;
  before = "";
  after = "";
  summary = summary;
}

module _ (quote : String → String) where
  -- imageChangeSummaries
  unfoldable pub image_change_summaries : List String → List String → List UpdateChange
  image_change_summaries added removed =
      map (λ img. change "image" img ("image " <> (quote img <> " added"))) added
      ++ map (λ img. change "image" img ("image " <> (quote img <> " removed"))) removed

  -- volumeChangeSummaries
  unfoldable pub volume_change_summaries :
      List PlannedVolume → List PlannedVolume → List UpdateChange
  volume_change_summaries added removed =
      map (λ (v : PlannedVolume). change "volume" v.name ("volume " <> (quote v.name <> " added")))
        added
      ++ map
          (λ (v : PlannedVolume).
            change "volume" v.name ("volume " <> (quote v.name <> " removed")))
          removed

  -- portChangeSummaries
  unfoldable pub port_change_summaries : List PlannedPort → List PlannedPort → List UpdateChange
  port_change_summaries added removed =
      map
        (λ (p : PlannedPort).
          change "port" (port_key p) ("port " <> (quote (port_key p) <> " added")))
        added
      ++ map
          (λ (p : PlannedPort).
            change "port" (port_key p) ("port " <> (quote (port_key p) <> " removed")))
          removed

  abbrev required_text : PermissionDiff → String
  required_text d =
      if d.state == "changed"
      then (if d.required then " (required=true)" else " (required=false)")
      else ""

  -- permissionChangeSummaries
  unfoldable pub permission_change_summaries : List PermissionDiff → List UpdateChange
  permission_change_summaries [] = []
  permission_change_summaries (d ∷ ds) =
      let rest = permission_change_summaries ds in
      if d.state == "unchanged"
      then rest
      else change "permission" d.kind
          ("permission " <> (quote d.kind <> (" " <> (d.state <> required_text d))))
        ∷ rest

abbrev pub rollback_safe : Option ManifestUpgrade → Bool
rollback_safe none = false
rollback_safe (some u) = u.rollback_safe

abbrev pub migration_risk : Option ManifestUpgrade → Bool
migration_risk none = false
migration_risk (some u) = not (u.migration_risk == "")

abbrev pub is_increase : PermissionDiff → Bool
is_increase d = d.state == "added" || (d.state == "changed" && d.required)

-- permissionIncrease and preview.RequiresAcknowledgement in UpdatePreview
unfoldable pub requires_acknowledgement :
    List PermissionDiff → List PlannedVolume → Option ManifestUpgrade → Bool
unfolding exists
requires_acknowledgement diff removed_volumes upgrade =
    exists is_increase diff
    || ltb 0 (length removed_volumes)
    || migration_risk upgrade
    || not (rollback_safe upgrade)
