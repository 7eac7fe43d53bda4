-- ===== src/Prelude/Replace.antt =====
-- strings.ReplaceAll, over characters: an occurrence of valid UTF-8 begins and ends at characters.
use Prim.Native.Nat.{ℕ, zero, suc, ◌-◌}
use Prim.Native.Char.{code}
use Prim.Native.String.{String}
use mathlib.Core.Path.{◌≡◌, refl, sym, ◌∙◌}
use mathlib.Core.Logic.{◌≢◌, inl, inr}
use mathlib.Core.Bool.{Bool, true, false, ◌&&◌, not}
use native.Mathlib.Omega.{arith}
use opendash.Prelude.Tests.{nat_eq, if◌then◌else◌, Bool-cases}
use opendash.Prelude.Strings.{has_prefix, contains}

abbrev pub append : String → String → String
append String.[] t = t
append (String.◌∷◌ c s) t = String.◌∷◌ c (append s t)

abbrev characters : String → ℕ
characters String.[] = 0
characters (String.◌∷◌ c s) = suc (characters s)

-- what is left of the text: the first number counts the characters of a match that are still to skip
unfoldable pub replace_from : ℕ → String → String → String → String
unfolding has_prefix
replace_from k old new String.[] = String.[]
replace_from (suc k) old new (String.◌∷◌ c s) = replace_from k old new s
replace_from zero old new (String.◌∷◌ c s) =
    let matched = append new (replace_from (characters old - 1) old new s) in
    let missed = String.◌∷◌ c (replace_from 0 old new s) in
    if has_prefix (String.◌∷◌ c s) old then matched else missed

-- an empty `old` matches before every character and at the end
abbrev between : String → String → String
between new String.[] = new
between new (String.◌∷◌ c s) = append new (String.◌∷◌ c (between new s))

-- strings.ReplaceAll
abbrev pub replace_all : String → String → String → String
replace_all s String.[] new = between new s
replace_all s (String.◌∷◌ c old) new = replace_from 0 (String.◌∷◌ c old) new s

replace_runs : replace_all "aababa" "aba" "-" ≡ "a-ba"
unfolding replace_from
replace_runs = refl

abbrev pub mask : String
mask = "***"

abbrev pub star_free : String → Bool
star_free String.[] = true
star_free (String.◌∷◌ c s) = not (nat_eq (code c) b'*') && star_free s

prefix-star : (s v : String) → star_free v ≡ true → v ≢ "" → has_prefix (String.◌∷◌ "*" s) v ≡ false
unfolding has_prefix
prefix-star s String.[] f h = absurd (h refl)
prefix-star s (String.◌∷◌ d v) f h = ground arith

prefix-masked :
    (p s v : String)
    → star_free v ≡ true
    → has_prefix (replace_from 0 p mask s) v ≡ true
    → has_prefix s v ≡ true
unfolding replace_from has_prefix
prefix-masked p s String.[] f h = refl
prefix-masked p String.[] (String.◌∷◌ d v) f h = h
prefix-masked p (String.◌∷◌ c s) (String.◌∷◌ d v) f h =
    elim (Bool-cases (has_prefix (String.◌∷◌ c s) p)) [
      | inl e ↦ absurd (ground (arith, rw e at h))
      | inr e ↦ ground (arith, prefix-masked p s v, rw e at h)
    ]

contains-mask :
    (s v : String) → star_free v ≡ true → v ≢ "" → contains (append mask s) v ≡ contains s v
unfolding contains
contains-mask s v f n =
    rw (prefix-star (append "**" s) v f n, prefix-star (append "*" s) v f n, prefix-star s v f n)
      refl

-- What the masked text contains, the text contained.
contains-masked :
    (k : ℕ) (p s v : String)
    → star_free v ≡ true
    → v ≢ ""
    → contains (replace_from k p mask s) v ≡ true
    → contains s v ≡ true
unfolding replace_from contains
contains-masked k p String.[] v f n h = h
contains-masked (suc k) p (String.◌∷◌ c s) v f n h = ground (arith, contains-masked k p s v f n h)
contains-masked zero p (String.◌∷◌ c s) v f n h =
    elim (Bool-cases (has_prefix (String.◌∷◌ c s) p)) [
      | inl e ↦
          (let left = replace_from (characters p - 1) p mask s in
            let h' : contains left v ≡ true = sym (contains-mask left v f n) ∙ rw e at h in
            ground (arith, contains-masked (characters p - 1) p s v f n h'))
      | inr e ↦
          (let first = prefix-masked p (String.◌∷◌ c s) v f in
            ground (arith, rw e at first, rw e at h, contains-masked 0 p s v f n))
    ]

-- No match is left.
masked-absent :
    (k : ℕ) (p s : String)
    → star_free p ≡ true
    → p ≢ ""
    → contains (replace_from k p mask s) p ≡ false
unfolding replace_from contains has_prefix
masked-absent k String.[] String.[] f n = absurd (n refl)
masked-absent k (String.◌∷◌ d p) String.[] f n = refl
masked-absent (suc k) p (String.◌∷◌ c s) f n = masked-absent k p s f n
masked-absent zero p (String.◌∷◌ c s) f n = elim (Bool-cases (has_prefix (String.◌∷◌ c s) p)) [
  | inl e ↦ rw e (
      contains-mask (replace_from (characters p - 1) p mask s) p f n
      ∙ masked-absent (characters p - 1) p s f n)
  | inr e ↦
      (let first = prefix-masked p (String.◌∷◌ c s) p f in
        let rest = masked-absent 0 p s f n in rw e (ground (arith, rw e at first)))
]

-- What the text does not contain, the masked text does not.
pub contains-replace_all :
    (p s v : String)
    → star_free v ≡ true
    → v ≢ ""
    → p ≢ ""
    → contains s v ≡ false
    → contains (replace_all s p mask) v ≡ false
contains-replace_all String.[] s v f n q h = absurd (q refl)
contains-replace_all (String.◌∷◌ c p) s v f n q h =
    elim (Bool-cases (contains (replace_from 0 (String.◌∷◌ c p) mask s) v)) [
      | inl e ↦ absurd (ground (arith, contains-masked 0 (String.◌∷◌ c p) s v f n e))
      | inr e ↦ e
    ]

pub replace_all-absent :
    (p s : String) → star_free p ≡ true → p ≢ "" → contains (replace_all s p mask) p ≡ false
replace_all-absent String.[] s f n = absurd (n refl)
replace_all-absent (String.◌∷◌ c p) s f n = masked-absent 0 (String.◌∷◌ c p) s f n
