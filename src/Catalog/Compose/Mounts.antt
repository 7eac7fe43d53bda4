-- ===== src/Catalog/Compose/Mounts.antt =====
-- What stands at each path of the main service when the planned volumes are mounted.
use Prim.Native.String.{◌++◌ as ◌<>◌}
use opendash.Prelude.{
  ◌≡◌, refl, ap, ◌∙◌, String, Bool, true, false, not, Option, none, some, List, [], ◌∷◌, ◌++◌, ◌==◌,
  eq_iff, if◌then◌else◌, split, keep, All, arith, Bool-cases, inl, inr,
}
use opendash.Split.{Lacks, split-Lacks, split-append}
use Prim.Native.String.append
use opendash.Models.Plan.{PlannedVolume}
use opendash.Catalog.Compose.Inline.{
  container_path_from_volume_spec, replace_volume_for_mount_path, mount_all,
}

-- the mounts at a path
abbrev pub mounts_at : String → List String → List String
mounts_at path mounts = keep (λ v. container_path_from_volume_spec v == path) mounts

abbrev pub mount_of : PlannedVolume → String
mount_of vol = vol.host_path <> (":" <> vol.mount_path)

abbrev or_volume : Option PlannedVolume → Option PlannedVolume → Option PlannedVolume
or_volume none b = b
or_volume (some v) b = some v

-- the last planned volume of a path
abbrev pub last_at : String → List PlannedVolume → Option PlannedVolume
last_at path [] = none
last_at path (vol ∷ vols) =
    or_volume (last_at path vols) (if vol.mount_path == path then some vol else none)

abbrev pub mounted : List String → Option PlannedVolume → List String
mounted before none = before
mounted before (some vol) = mount_of vol ∷ []

container_path-mount_of :
    (host path : String)
    → Lacks b':' host
    → Lacks b':' path
    → container_path_from_volume_spec (host <> (":" <> path)) ≡ path
unfolding container_path_from_volume_spec
container_path-mount_of host path h k = rw (split_colon host path h, split-Lacks b':' path k) refl
  where
    split_colon :
        (p rest : String) → Lacks b':' p → split b':' (p <> (":" <> rest)) ≡ p ∷ split b':' rest
    split_colon p rest h = rw (append.cons, append.nil) (split-append b':' p _ rest h refl)

mounts_at-append :
    (path : String) (xs ys : List String)
    → mounts_at path (xs ++ ys) ≡ mounts_at path xs ++ mounts_at path ys
unfolding keep
mounts_at-append path [] ys = refl
mounts_at-append path (x ∷ xs) ys = elim (Bool-cases (container_path_from_volume_spec x == path)) [
  | inl e ↦ rw (e, mounts_at-append path xs ys) refl
  | inr e ↦ rw (e, mounts_at-append path xs ys) refl
]

-- Without the mounts at one path: none there, and those at another path.
mounts_at-removed :
    (path gone : String) (xs : List String)
    → mounts_at path (keep (λ v. not (container_path_from_volume_spec v == gone)) xs)
      ≡ (if gone == path then [] else mounts_at path xs)
unfolding keep
mounts_at-removed path gone [] = ground arith
mounts_at-removed path gone (x ∷ xs) =
    let at = container_path_from_volume_spec x in
    ground (arith, eq_iff at gone, eq_iff at path, eq_iff gone path, mounts_at-removed path gone xs)

mounts_at-replaced :
    (path gone spec : String) (xs : List String)
    → container_path_from_volume_spec spec ≡ gone
    → mounts_at path (replace_volume_for_mount_path xs gone spec)
      ≡ (if gone == path then spec ∷ [] else mounts_at path xs)
unfolding replace_volume_for_mount_path keep
mounts_at-replaced path gone spec xs h = elim (Bool-cases (gone == path)) [
  | inl e ↦ mounts_at-append path _ (spec ∷ []) ∙ rw (mounts_at-removed path gone xs, e, h, e) refl
  | inr e ↦
      mounts_at-append path _ (spec ∷ [])
      ∙ rw (mounts_at-removed path gone xs, e, h, e) (append_nil (mounts_at path xs))
]
  where
    append_nil : (xs : List String) → xs ++ [] ≡ xs
    append_nil [] = refl
    append_nil (x ∷ xs) = rw (append_nil xs) refl

-- Where no host path and no path of a planned volume has a colon, the service has at each path the mount of the last volume that is planned
-- for it, and no other, and at a path for which none is planned the mounts that it had.
pub mount_all-mounted :
    (path : String) (vols : List PlannedVolume) (mounts : List String)
    → All (λ (vol : PlannedVolume). Lacks b':' vol.host_path × Lacks b':' vol.mount_path) vols
    → mounts_at path (mount_all vols mounts) ≡ mounted (mounts_at path mounts) (last_at path vols)
unfolding mount_all
mount_all-mounted path [] mounts h = refl
mount_all-mounted path (vol ∷ vols) mounts ((host, at), h) =
    mount_all-mounted path vols (replace_volume_for_mount_path mounts vol.mount_path (mount_of vol))
      h
    ∙ ap (λ (b : List String). mounted b (last_at path vols))
        (mounts_at-replaced path vol.mount_path (mount_of vol) mounts
          (container_path-mount_of vol.host_path vol.mount_path host at))
    ∙ earlier (last_at path vols) (vol.mount_path == path)
  where
    earlier :
        (later : Option PlannedVolume) (b : Bool)
        → mounted (if b then mount_of vol ∷ [] else mounts_at path mounts) later
          ≡ mounted (mounts_at path mounts) (or_volume later (if b then some vol else none))
    earlier (some v) b = refl
    earlier none true = refl
    earlier none false = refl
