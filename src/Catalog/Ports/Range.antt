-- ===== src/Catalog/Ports/Range.antt =====
-- Which ports the parser of mappings returns.
use opendash.Prelude.{
  ◌≡◌, ◌≢◌, refl, String, true, Option, none, some, List, [], ◌∷◌, ◌++◌, ◌&&◌, leb, length, split,
  atoi, trim_space, Bool-cases, inl, inr, subst, ap,
}
use mathlib.Core.Option.{some-injective}
use opendash.Prelude.Int.{ℤ, pos, int_leb}
use opendash.Catalog.Ports.{parse_port_mapping, parse_parts, in_port_range, checked_port, both}

abbrev pub IsPort : ℤ → Type 0
IsPort n = (int_leb (pos 1) n && int_leb n (pos 65535)) ≡ true

-- The last two of two or three parts are the numbers.
abbrev pub HasPorts : List String → ℤ → ℤ → Type 0
HasPorts parts h c =
    (before : List String) × (host : String) × (container : String) × (parts
      ≡ before ++ (host ∷ container ∷ []))
    × (leb (length before) 1 ≡ true)
    × (atoi (trim_space host) ≡ some h)
    × (atoi (trim_space container) ≡ some c)
    × IsPort h
    × IsPort c

checked-IsPort : (a : Option ℤ) {h : ℤ} → checked_port a ≡ some h → (a ≡ some h) × IsPort h
checked-IsPort none e = cc
checked-IsPort (some n) e = elim (Bool-cases (in_port_range n)) [
  | inl good ↦
      (let same = some-injective _ _ (rw good at e) in
        (ap (λ (x : ℤ). some x) same, subst IsPort same good))
  | inr bad ↦ absurd (none_ne (rw bad at e))
]
  where
    none_ne : {h : ℤ} → none ≡ some h → ⊥
    none_ne e = cc

both-some : (a b : Option ℤ) {h c : ℤ} → both a b ≡ some (h, c) → (a ≡ some h) × (b ≡ some c)
both-some none b e = cc
both-some (some x) none e = cc
both-some (some x) (some y) e = (
  ap (λ (p : ℤ × ℤ). some p.0) (some-injective _ _ e),
  ap (λ (p : ℤ × ℤ). some p.1) (some-injective _ _ e),
)

pair-HasPorts :
    (before : List String) (host container : String) {h c : ℤ}
    → leb (length before) 1 ≡ true
    → both (checked_port (atoi (trim_space host))) (checked_port (atoi (trim_space container)))
      ≡ some (h, c)
    → HasPorts (before ++ (host ∷ container ∷ [])) h c
pair-HasPorts before host container few e =
    let (f, g) = both-some _ _ e in
    let (a, p) = checked-IsPort _ f in
    let (b, q) = checked-IsPort _ g in (before, host, container, refl, few, a, b, p, q)

parts-HasPorts :
    (parts : List String) {h c : ℤ}
    → length parts ≢ 1
    → parse_parts parts ≡ some (h, c)
    → HasPorts parts h c
parts-HasPorts [] n e = cc
parts-HasPorts (a ∷ []) n e = absurd (n refl)
parts-HasPorts (a ∷ b ∷ []) n e = pair-HasPorts [] a b refl e
parts-HasPorts (a ∷ b ∷ c ∷ []) n e = pair-HasPorts (a ∷ []) b c refl e
parts-HasPorts (a ∷ b ∷ c ∷ d ∷ rest) n e = cc

-- A mapping with a colon that is accepted has two or three parts, of which the last two are, without the blanks around
-- them, the numbers of the host port and of the container port; and both are from 1 to 65535.
pub parse-HasPorts :
    (s : String) {h c : ℤ}
    → length (split b':' s) ≢ 1
    → parse_port_mapping s ≡ some (h, c)
    → HasPorts (split b':' s) h c
unfolding parse_port_mapping
parse-HasPorts s n e = parts-HasPorts (split b':' s) n e
