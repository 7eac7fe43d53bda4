-- ===== src/Catalog/Allocate/Disjoint.antt =====
-- The host ports of two applications.
use opendash.Prelude.{
  ◌≡◌, refl, inl, inr, ℕ, true, some, [], ◌∷◌, ok, if◌then◌else◌, exists, arith, Bool-cases,
}
use mathlib.Core.Option.{some-injective}
use opendash.Prelude.Int.{ℤ, int_eq, int_eq_iff}
use opendash.Prelude.Maps.{get, int_key}
use opendash.Models.Manifest.{Manifest}
use opendash.Catalog.Assess.{inline_services}
use opendash.Catalog.Allocate.{
  PortMap, Reserved, is_reserved, reserve_host_ports, Listeners, fixed_ports, copied, host_ports,
}
use opendash.Catalog.Allocate.Unreserved.{given-IsUnreserved}

reserve_kept :
    (ports : PortMap) (reserved : Reserved) (p : ℤ)
    → is_reserved p reserved ≡ true
    → is_reserved p (reserve_host_ports ports reserved) ≡ true
unfolding reserve_host_ports is_reserved
reserve_kept [] reserved p h = h
reserve_kept ((cp, hp) ∷ ports) reserved p h = reserve_kept ports _ p (ground (arith, h))

added :
    (p : ℤ) (reserved : Reserved)
    → is_reserved p (if is_reserved p reserved then reserved else p ∷ reserved) ≡ true
unfolding is_reserved exists
added p reserved = elim (Bool-cases (exists (int_eq p) reserved)) [
  | inl e ↦ rw (e, e) refl
  | inr e ↦ rw (e, (int_eq_iff p p).1 refl) refl
]

reserve-covers :
    (ports : PortMap) (reserved : Reserved) (cp p : ℤ)
    → get cp ports ≡ some p
    → is_reserved p (reserve_host_ports ports reserved) ≡ true
unfolding reserve_host_ports is_reserved get
reserve-covers [] reserved cp p h = cc
reserve-covers ((c, q) ∷ ports) reserved cp p h = elim (Bool-cases (int_eq c cp)) [
  | inl e ↦
      (let same : q ≡ p = some-injective _ _ (rw e at h) in
        reserve_kept ports _ p (rw same (added p reserved)))
  | inr e ↦ reserve-covers ports _ cp p (rw e at h)
]

-- While the host ports of one application are reserved, an allocation for another that succeeds gives it
-- none of them, but where its document or an override fixes the port.
pub reserved-disjoint :
    (listeners : Listeners) (reserved : Reserved) (m : Manifest) (overrides first second : PortMap)
    (n : ℕ) (cp cp' hp : ℤ)
    → (host_ports listeners (reserve_host_ports first reserved) m overrides n).0 ≡ ok second
    → get cp first ≡ some hp
    → get cp' second ≡ some hp
    → (fixed : PortMap) × (fixed_ports (inline_services m.compose.inline) (copied overrides)
        ≡ ok fixed)
      × (get cp' fixed ≡ some hp)
reserved-disjoint listeners reserved m overrides first second n cp cp' hp q a b =
    let (fixed, e, free, kept, covered) =
      given-IsUnreserved listeners (reserve_host_ports first reserved) m overrides second n q in
    (
      fixed,
      e,
      elim (free cp' hp b) [
        | inl h ↦ h
        | inr h ↦ absurd (let taken = reserve-covers first reserved cp hp a in cc)
      ],
    )
