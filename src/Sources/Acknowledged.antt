-- ===== src/Sources/Acknowledged.antt =====
-- What an update that need not be acknowledged leaves as it is.
use mathlib.Core.Option.{some-injective}
use opendash.Prelude.{
  ℕ, suc, ◌≤◌, ◌≡◌, refl, sym, ◌∙◌, ◌⊎◌, String, Bool, true, false, ◌||◌, ◌&&◌, not, Option, none,
  some, List, [], ◌∷◌, ◌==◌, if◌then◌else◌, length, keep, exists, exists-append, All, arith, inl,
  inr, Bool-cases,
}
use opendash.Prelude.Maps.{get, put, get-put, text_key}
use opendash.Models.Manifest.{ManifestPermission, ManifestUpgrade}
use opendash.Models.Plan.{PlannedVolume}
use opendash.Sources.Diff.{
  diff_by, diff_volumes, permission_map, same_bool, next_state, diff_entry, next_entries,
  removed_entries, permission_diff, rollback_safe, migration_risk, is_increase,
  requires_acknowledgement,
}

-- A permission of the same kind that is required if this one is.
abbrev pub covers : ManifestPermission → ManifestPermission → Bool
covers p c = c.kind == p.kind && (not p.required || c.required)

abbrev pub IsCovered : List ManifestPermission → ManifestPermission → Type 0
IsCovered current p = exists (covers p) current ≡ true

-- An entry of the map is a permission of the list.
map-covers :
    (p c : ManifestPermission) (current : List ManifestPermission)
    (m : List (String × ManifestPermission))
    → get p.kind (permission_map current m) ≡ some c
    → (not p.required || c.required) ≡ true
    → (exists (covers p) current ≡ true) ⊎ (get p.kind m ≡ some c)
unfolding permission_map exists
map-covers p c [] m h q = inr h
map-covers p c (x ∷ xs) m h q = place (map-covers p c xs (put x.kind x m) h q)
  where
    place :
        (exists (covers p) xs ≡ true) ⊎ (get p.kind (put x.kind x m) ≡ some c)
        → (exists (covers p) (x ∷ xs) ≡ true) ⊎ (get p.kind m ≡ some c)
    place (inl e) = inl (ground (arith, e))
    place (inr e) = elim (Bool-cases (x.kind == p.kind)) [
      | inl own ↦
          let same : x ≡ c = some-injective x c (sym (rw (get-put, own) refl) ∙ e) in
          let good : (not p.required || x.required) ≡ true = rw same q in inl (ground (arith, good))
      | inr other ↦ inr (sym (rw (get-put, other) refl) ∙ e)
    ]

get-empty : (key : String) (c : ManifestPermission) → get key [] ≡ some c → ⊥
unfolding get
get-empty key c g = cc

-- An entry that is no increase is of a permission that the current ones cover.
entry-IsCovered :
    (current : List ManifestPermission) (p : ManifestPermission) (o : Option ManifestPermission)
    → get p.kind (permission_map current []) ≡ o
    → is_increase (diff_entry p (next_state p o)) ≡ false
    → IsCovered current p
entry-IsCovered current p none e h = cc
entry-IsCovered current p (some c) e h =
    from_map (map-covers p c current [] e (agrees c.required p.required h))
  where
    agrees :
        (b r : Bool)
        → is_increase (
            diff_entry
              (record p { required = r })
              (if same_bool b r then "unchanged" else "changed"))
          ≡ false
        → (not r || b) ≡ true
    agrees true true h = refl
    agrees true false h = refl
    agrees false true h = cc
    agrees false false h = refl

    from_map : (exists (covers p) current ≡ true) ⊎ (get p.kind [] ≡ some c) → IsCovered current p
    from_map (inl g) = g
    from_map (inr g) = absurd (get-empty p.kind c g)

entries-IsCovered :
    (current next : List ManifestPermission)
    → exists is_increase (next_entries (permission_map current []) next) ≡ false
    → All (IsCovered current) next
unfolding exists
entries-IsCovered current [] h = tt
entries-IsCovered current (p ∷ ps) h = (
  entry-IsCovered current p (get p.kind (permission_map current [])) refl (ground arith),
  entries-IsCovered current ps (ground arith),
)

-- A volume of the current plan is in the new one.
abbrev pub IsKept : List PlannedVolume → PlannedVolume → Type 0
IsKept new v = exists (λ (w : PlannedVolume). w.name == v.name) new ≡ true

nothing_removed :
    (current new : List PlannedVolume)
    → length (diff_volumes current new) ≤ 0
    → All (IsKept new) current
unfolding diff_by keep
nothing_removed [] new h = tt
nothing_removed (v ∷ vs) new h =
    elim (Bool-cases (exists (λ (w : PlannedVolume). w.name == v.name) new)) [
      | inl e ↦ (e, nothing_removed vs new (rw e at h))
      | inr e ↦ absurd (too_long (rw e at h))
    ]
  where
    too_long : {n : ℕ} → suc n ≤ 0 → ⊥
    too_long h = omega arith

-- An update that need not be acknowledged asks for no permission that is not there, and requires none
-- that was not required; it keeps every volume; and its publisher declares no risk of a migration, and
-- that it can be rolled back.
pub unacknowledged-keeps :
    (current next : List ManifestPermission) (old new : List PlannedVolume)
    (upgrade : Option ManifestUpgrade)
    → requires_acknowledgement (permission_diff current next) (diff_volumes old new) upgrade ≡ false
    → All (IsCovered current) next
      × All (IsKept new) old
      × (migration_risk upgrade ≡ false)
      × (rollback_safe upgrade ≡ true)
unfolding requires_acknowledgement permission_diff
unacknowledged-keeps current next old new upgrade h =
    let entries = next_entries (permission_map current []) next in
    let split : exists is_increase (permission_diff current next) ≡ (
        exists is_increase entries
        || exists is_increase (removed_entries (permission_map next []) current)) =
      exists-append is_increase entries _ in
    (
      entries-IsCovered current next (ground (arith, split)),
      nothing_removed old new (ground arith),
      ground arith,
      ground arith,
    )
