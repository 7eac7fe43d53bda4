-- ===== src/Catalog/Allocate/Unreserved.antt =====
-- Which ports an allocation gives to the endpoints.
use opendash.Prelude.{
  ◌≡◌, refl, ap, subst, sym, ◌∙◌, ◌⊎◌, inl, inr, ℕ, zero, suc, ◌+◌, false, Option, none, some, List,
  [], ◌∷◌, Result, ok, err, All, Bool-cases,
}
use mathlib.Core.Option.{some-injective}
use opendash.Prelude.Int.{ℤ, int_eq, int_eq_iff}
use opendash.Prelude.Maps.{get, put, get-put, int_key}
use opendash.Models.Manifest.{Manifest, ManifestEndpoint}
use opendash.Catalog.Assess.{inline_services}
use opendash.Catalog.Allocate.{
  PortMap, Reserved, is_reserved, PortError, Listeners, number_of, attempt, find_loop,
  find_free_port, fixed_ports, put_found, allocate_found, allocate_one, allocate, copied,
  allocate_behind, host_ports,
}

ok-injective : {A : Type 0} {a b : A} → ◌≡◌ {A = Result PortError A} (ok a) (ok b) → a ≡ b
ok-injective {A} {a} h = ap (λ (r : Result PortError A). elim r [ ok x ↦ x | err e ↦ a ]) h

attempt-unreserved :
    (reserved : Reserved) (a : Option ℤ) (n : ℕ) (next : Result PortError ℤ × ℕ) (p : ℤ)
    → (next.0 ≡ ok p → is_reserved p reserved ≡ false)
    → (attempt reserved a n next).0 ≡ ok p
    → is_reserved p reserved ≡ false
attempt-unreserved reserved none n next p k h = cc
attempt-unreserved reserved (some q) n next p k h = elim (Bool-cases (is_reserved q reserved)) [
  | inl e ↦ k (rw e at h)
  | inr e ↦ (let same = rw e at h in cc)
]

find-unreserved :
    (listeners : Listeners) (reserved : Reserved) (attempts n : ℕ) (p : ℤ)
    → (find_loop listeners reserved attempts n).0 ≡ ok p
    → is_reserved p reserved ≡ false
unfolding find_loop
find-unreserved listeners reserved zero n p h = cc
find-unreserved listeners reserved (suc attempts) n p h =
    attempt-unreserved reserved (number_of (listeners n)) (n + 1) _ p
      (find-unreserved listeners reserved attempts (n + 1) p) h

-- Every host port is fixed, or not reserved.
abbrev pub IsUnreserved : PortMap → Reserved → PortMap → Type 0
IsUnreserved fixed reserved ports =
    (cp hp : ℤ)
    → get cp ports ≡ some hp
    → (get cp fixed ≡ some hp) ⊎ (is_reserved hp reserved ≡ false)

-- What was allocated stays.
abbrev IsKept : PortMap → PortMap → Type 0
IsKept ports ports' = (cp hp : ℤ) → get cp ports ≡ some hp → get cp ports' ≡ some hp

put-IsUnreserved :
    (fixed : PortMap) (reserved : Reserved) (ports : PortMap) (k v : ℤ)
    → is_reserved v reserved ≡ false
    → IsUnreserved fixed reserved ports
    → IsUnreserved fixed reserved (put k v ports)
put-IsUnreserved fixed reserved ports k v free h cp hp e = elim (Bool-cases (int_eq k cp)) [
  | inl same ↦
      (let new : some v ≡ some hp = rw same at (sym (get-put k cp v ports) ∙ e) in
        inr (rw (sym (some-injective _ _ new)) free))
  | inr other ↦ h cp hp (rw other at (sym (get-put k cp v ports) ∙ e))
]

put-IsKept : (ports : PortMap) (k v : ℤ) → get k ports ≡ none → IsKept ports (put k v ports)
put-IsKept ports k v miss cp hp e = elim (Bool-cases (int_eq k cp)) [
  | inl same ↦ (let missing : get cp ports ≡ none = rw (sym ((int_eq_iff k cp).0 same)) miss in cc)
  | inr other ↦ rw (get-put k cp v ports, other) e
]

-- One endpoint, as the loop takes it.
abbrev IsStep : PortMap → Reserved → ManifestEndpoint → PortMap → PortMap → Type 0
IsStep fixed reserved ep ports ports' =
    IsUnreserved fixed reserved ports'
    × IsKept ports ports'
    × ((hp : ℤ) × (get ep.port ports' ≡ some hp))

found-IsStep :
    (fixed : PortMap) (reserved : Reserved) (ep : ManifestEndpoint) (ports ports' : PortMap)
    (r : Result PortError ℤ × ℕ)
    → IsUnreserved fixed reserved ports
    → get ep.port ports ≡ none
    → ((p : ℤ) → r.0 ≡ ok p → is_reserved p reserved ≡ false)
    → (put_found ep ports r).0 ≡ ok ports'
    → IsStep fixed reserved ep ports ports'
found-IsStep fixed reserved ep ports ports' (err e, n) h miss free q = cc
found-IsStep fixed reserved ep ports ports' (ok p, n) h miss free q =
    subst (IsStep fixed reserved ep ports) (ok-injective q) (
      put-IsUnreserved fixed reserved ports ep.port p (free p refl) h,
      put-IsKept ports ep.port p miss,
      (p, get-put ep.port ep.port p ports ∙ rw ((int_eq_iff ep.port ep.port).1 refl) refl),
    )

one-IsStep :
    (listeners : Listeners) (fixed : PortMap) (reserved : Reserved) (ep : ManifestEndpoint)
    (ports ports' : PortMap) (n : ℕ)
    → IsUnreserved fixed reserved ports
    → (allocate_one listeners reserved ep ports n).0 ≡ ok ports'
    → IsStep fixed reserved ep ports ports'
one-IsStep listeners fixed reserved ep ports ports' n h q = go (get ep.port ports) refl q
  where
    go :
        (found : Option ℤ)
        → get ep.port ports ≡ found
        → (allocate_found listeners reserved ep ports n found).0 ≡ ok ports'
        → IsStep fixed reserved ep ports ports'
    go (some hp) e q =
        subst (IsStep fixed reserved ep ports) (ok-injective q) (h, (λ cp hp e. e), (hp, e))
    go none e q =
        found-IsStep fixed reserved ep ports ports' (find_free_port listeners reserved n) h e
          (λ p. find-unreserved listeners reserved 20 n p) q

-- What the loop leaves.
abbrev IsAllocated : PortMap → Reserved → List ManifestEndpoint → PortMap → PortMap → Type 0
IsAllocated fixed reserved eps ports ports' =
    IsUnreserved fixed reserved ports'
    × IsKept ports ports'
    × All (λ (ep : ManifestEndpoint). (hp : ℤ) × (get ep.port ports' ≡ some hp)) eps

allocate-IsAllocated :
    (listeners : Listeners) (fixed : PortMap) (reserved : Reserved) (eps : List ManifestEndpoint)
    (ports ports' : PortMap) (n : ℕ)
    → IsUnreserved fixed reserved ports
    → (allocate listeners reserved eps ports n).0 ≡ ok ports'
    → IsAllocated fixed reserved eps ports ports'
unfolding allocate
allocate-IsAllocated listeners fixed reserved [] ports ports' n h q =
    subst (IsAllocated fixed reserved [] ports) (ok-injective q) (h, (λ cp hp e. e), tt)
allocate-IsAllocated listeners fixed reserved (ep ∷ eps) ports ports' n h q =
    let (r, n1) = allocate_one listeners reserved ep ports n in
    go r n1 (λ ports1 e. one-IsStep listeners fixed reserved ep ports ports1 n h e)
      (λ ports1. allocate-IsAllocated listeners fixed reserved eps ports1 ports' n1) q
  where
    rest : Result PortError PortMap → ℕ → Result PortError PortMap × ℕ
    rest r n1 = elim r [
      | ok ports1 ↦ allocate listeners reserved eps ports1 n1
      | err e ↦ (err e, n1)
    ]

    go :
        (r : Result PortError PortMap) (n1 : ℕ)
        → ((ports1 : PortMap) → r ≡ ok ports1 → IsStep fixed reserved ep ports ports1)
        → ((ports1 : PortMap)
            → IsUnreserved fixed reserved ports1
            → (allocate listeners reserved eps ports1 n1).0 ≡ ok ports'
            → IsAllocated fixed reserved eps ports1 ports')
        → (rest r n1).0 ≡ ok ports'
        → IsAllocated fixed reserved (ep ∷ eps) ports ports'
    go (err e) n1 k l q = cc
    go (ok ports1) n1 k l q =
        let (free, kept, (hp, there)) = k ports1 refl in
        let (free', kept', covered) = l ports1 free q in
        (free', (λ cp p e. kept' cp p (kept cp p e)), ((hp, kept' ep.port hp there), covered))

-- Each host port that an allocation gives is fixed by a mapping of the document or an override, or is not reserved.
pub given-IsUnreserved :
    (listeners : Listeners) (reserved : Reserved) (m : Manifest) (overrides ports : PortMap) (n : ℕ)
    → (host_ports listeners reserved m overrides n).0 ≡ ok ports
    → (fixed : PortMap) × (fixed_ports (inline_services m.compose.inline) (copied overrides)
        ≡ ok fixed)
      × IsUnreserved fixed reserved ports
      × IsKept fixed ports
      × All (λ (ep : ManifestEndpoint). (p : ℤ) × (get ep.port ports ≡ some p)) m.endpoints
unfolding host_ports
given-IsUnreserved listeners reserved m overrides ports n q =
    go (fixed_ports (inline_services m.compose.inline) (copied overrides)) q
  where
    go :
        (r : Result PortError PortMap)
        → (allocate_behind listeners reserved m.endpoints r n).0 ≡ ok ports
        → (fixed : PortMap) × (r ≡ ok fixed)
          × IsUnreserved fixed reserved ports
          × IsKept fixed ports
          × All (λ (ep : ManifestEndpoint). (p : ℤ) × (get ep.port ports ≡ some p)) m.endpoints
    go (err e) q = cc
    go (ok fixed) q =
        let (free, kept, covered) =
          allocate-IsAllocated listeners fixed reserved m.endpoints fixed ports n (λ cp hp e. inl e)
            q in
        (fixed, refl, free, kept, covered)

-- The endpoint has a host port, which is fixed or not reserved.
abbrev pub IsPublished : PortMap → Reserved → PortMap → ManifestEndpoint → Type 0
IsPublished fixed reserved ports ep =
    (p : ℤ) × (get ep.port ports ≡ some p)
    × ((get ep.port fixed ≡ some p) ⊎ (is_reserved p reserved ≡ false))

covered-IsPublished :
    (fixed : PortMap) (reserved : Reserved) (ports : PortMap) (eps : List ManifestEndpoint)
    → IsUnreserved fixed reserved ports
    → All (λ (ep : ManifestEndpoint). (p : ℤ) × (get ep.port ports ≡ some p)) eps
    → All (IsPublished fixed reserved ports) eps
covered-IsPublished fixed reserved ports [] free h = tt
covered-IsPublished fixed reserved ports (ep ∷ eps) free ((p, e), h) =
    ((p, e, free ep.port p e), covered-IsPublished fixed reserved ports eps free h)

-- An allocation that succeeds gives every endpoint a host port, which is fixed by a mapping of the document or an
-- override, or is not reserved.
pub host_ports-IsPublished :
    (listeners : Listeners) (reserved : Reserved) (m : Manifest) (overrides ports : PortMap) (n : ℕ)
    → (host_ports listeners reserved m overrides n).0 ≡ ok ports
    → (fixed : PortMap) × (fixed_ports (inline_services m.compose.inline) (copied overrides)
        ≡ ok fixed)
      × All (IsPublished fixed reserved ports) m.endpoints
host_ports-IsPublished listeners reserved m overrides ports n q =
    let (fixed, e, free, kept, covered) =
      given-IsUnreserved listeners reserved m overrides ports n q in
    (fixed, e, covered-IsPublished fixed reserved ports m.endpoints free covered)
