-- ===== src/Prelude/Lists.antt =====
-- Lists over the native numbers, filters and membership by Boolean tests.
use Prim.Native.Nat.{ℕ, suc, ◌+◌, ◌≤◌, ◌<◌}
use mathlib.Core.Path.{◌≡◌, refl, ap, subst}
use mathlib.Core.Logic.{◌⊎◌, inl, inr}
use mathlib.Core.Bool.{Bool, true, false, ◌&&◌, ◌||◌}
use mathlib.Core.Option.{Option, none, some, some-injective}
use mathlib.Core.List.{List, [], ◌∷◌, ◌++◌}
use native.Mathlib.Omega.{arith}
use opendash.Prelude.Tests.{if◌then◌else◌, Bool-cases}

module _ {ℓ} {A : Type ℓ} where
  abbrev pub length : List A → ℕ
  length [] = 0
  length (x ∷ xs) = suc (length xs)

  -- the elements that pass the test, in order
  unfoldable pub keep : (A → Bool) → List A → List A
  keep p [] = []
  keep p (x ∷ xs) = let rest = keep p xs in if p x then x ∷ rest else rest

  -- UPDATE: the elements that pass the test, changed in their places
  unfoldable pub update_if : (A → Bool) → (A → A) → List A → List A
  update_if p f [] = []
  update_if p f (x ∷ xs) = let rest = update_if p f xs in if p x then f x ∷ rest else x ∷ rest

  unfoldable pub exists : (A → Bool) → List A → Bool
  exists p [] = false
  exists p (x ∷ xs) = p x || exists p xs

  unfoldable pub find_first : (A → Bool) → List A → Option A
  find_first p [] = none
  find_first p (x ∷ xs) = if p x then some x else find_first p xs

  unfoldable pub count_if : (A → Bool) → List A → ℕ
  count_if p [] = 0
  count_if p (x ∷ xs) = if p x then suc (count_if p xs) else count_if p xs

  -- Every element satisfies the predicate.
  abbrev pub All {κ} : (A → Type κ) → List A → Type κ
  All P [] = Unit
  All P (x ∷ xs) = P x × All P xs

  -- Some element satisfies the predicate, at a known place.
  abbrev pub Any : (A → Type 0) → List A → Type 0
  Any P [] = ⊥
  Any P (x ∷ xs) = P x ⊎ Any P xs

  pub length-keep-le : (p : A → Bool) (xs : List A) → length (keep p xs) ≤ length xs
  unfolding keep
  length-keep-le p [] = omega arith
  length-keep-le p (x ∷ xs) = ground (arith, length-keep-le p xs)

  pub exists-keep :
      (p q : A → Bool) (xs : List A) → exists p (keep q xs) ≡ exists (λ x. q x && p x) xs
  unfolding exists keep
  exists-keep p q [] = refl
  exists-keep p q (x ∷ xs) = ground (arith, exists-keep p q xs)

  pub exists-append :
      (p : A → Bool) (xs ys : List A) → exists p (xs ++ ys) ≡ (exists p xs || exists p ys)
  unfolding exists
  exists-append p [] ys = refl
  exists-append p (x ∷ xs) ys = ground (arith, exists-append p xs ys)

  pub count_if-append :
      (p : A → Bool) (xs ys : List A) → count_if p (xs ++ ys) ≡ count_if p xs + count_if p ys
  unfolding count_if
  count_if-append p [] ys = omega arith
  count_if-append p (x ∷ xs) ys = ground (arith, count_if-append p xs ys)

  pub exists-pos : (p : A → Bool) (xs : List A) → exists p xs ≡ true → 0 < length xs
  unfolding exists
  exists-pos p [] h = cc
  exists-pos p (x ∷ xs) h = omega arith

  pub eq-nil_of_length : (xs : List A) → length xs ≤ 0 → xs ≡ []
  eq-nil_of_length [] h = refl
  eq-nil_of_length (x ∷ xs) h = absurd (omega arith)

  -- A search over what a filter left, where the filter takes none or all of what is searched for.
  pub find_first-keep_miss :
      (p q : A → Bool) (xs : List A)
      → ((x : A) → p x ≡ true → q x ≡ false)
      → find_first p (keep q xs) ≡ none
  unfolding find_first keep
  find_first-keep_miss p q [] h = refl
  find_first-keep_miss p q (x ∷ xs) h = ground (arith, h x, find_first-keep_miss p q xs h)

  pub find_first-keep_all :
      (p q : A → Bool) (xs : List A)
      → ((x : A) → p x ≡ true → q x ≡ true)
      → find_first p (keep q xs) ≡ find_first p xs
  unfolding find_first keep
  find_first-keep_all p q [] h = refl
  find_first-keep_all p q (x ∷ xs) h = ground (arith, h x, find_first-keep_all p q xs h)

  -- What a search that found something says.
  pub find_first-inv :
      (p : A → Bool) (xs : List A) {x : A}
      → find_first p xs ≡ some x
      → (before : List A) × (rest : List A) × (xs ≡ before ++ (x ∷ rest)) × (p x ≡ true)
  unfolding find_first
  find_first-inv p [] h = cc
  find_first-inv p (y ∷ ys) {x} h = elim (Bool-cases (p y)) [
    | inl e ↦
        (let same : y ≡ x = some-injective _ _ (rw e at h) in
          ([], ys, ap (λ (z : A). z ∷ ys) same, subst (λ (z : A). p z ≡ true) same e))
    | inr e ↦
        (let (before, rest, q, t) = find_first-inv p ys (rw e at h) in
          (y ∷ before, rest, ap (λ (zs : List A). y ∷ zs) q, t))
  ]
