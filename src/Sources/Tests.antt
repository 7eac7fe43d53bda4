-- ===== src/Sources/Tests.antt =====
-- The differences of concrete plans, and the theorem on them.
use opendash.Prelude.{
  ◌≡◌, refl, String, Bool, true, false, Option, some, List, [], ◌∷◌, map, All, int_text,
}
use opendash.Prelude.Int.{pos}
use opendash.Models.Manifest.{ManifestPermission, ManifestUpgrade}
use opendash.Models.Plan.{PlannedVolume}
use opendash.Models.Source.{PermissionDiff}
use opendash.Sources.Diff.{
  diff_by, diff_volumes, port_key, permission_diff, requires_acknowledgement, rollback_safe,
  migration_risk,
}
use opendash.Sources.Acknowledged.{IsCovered, IsKept, unacknowledged-keeps}

abbrev permission : String → Bool → ManifestPermission
permission kind required = record { kind = kind; description = ""; required = required }

abbrev volume : String → PlannedVolume
volume name = record { name = name; mount_path = "/data"; host_path = name }

abbrev upgrade : Option ManifestUpgrade
upgrade = some (record { migration_risk = ""; rollback_safe = true; rollback_notes = "" })

abbrev current : List ManifestPermission
current = permission "network" true ∷ permission "docker" true ∷ permission "usb" false ∷ []

abbrev next : List ManifestPermission
next = permission "network" false ∷ permission "usb" false ∷ []

diff_runs :
    map (λ (d : PermissionDiff). d.state) (permission_diff current next)
    ≡ "changed" ∷ "unchanged" ∷ "removed" ∷ []
unfolding permission_diff
diff_runs = refl

port_key_runs :
    port_key (record { label = ""; container_port = pos 8080; host_port = pos 0; kind = "web" })
    ≡ "8080/web"
unfolding int_text
port_key_runs = refl

-- A permission that becomes required must be acknowledged.
increase_runs : requires_acknowledgement (permission_diff next current) [] upgrade ≡ true
unfolding requires_acknowledgement permission_diff
increase_runs = refl

decrease_runs :
    requires_acknowledgement
      (permission_diff current next)
      (diff_volumes (volume "a" ∷ []) (volume "b" ∷ volume "a" ∷ []))
      upgrade
    ≡ false
unfolding requires_acknowledgement permission_diff diff_by
decrease_runs = refl

unacknowledged-keeps_example :
    All (IsCovered current) next
    × All (IsKept (volume "b" ∷ volume "a" ∷ [])) (volume "a" ∷ [])
    × (migration_risk upgrade ≡ false)
    × (rollback_safe upgrade ≡ true)
unacknowledged-keeps_example =
    unacknowledged-keeps current next (volume "a" ∷ []) (volume "b" ∷ volume "a" ∷ []) upgrade
      decrease_runs
