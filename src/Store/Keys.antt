-- ===== src/Store/Keys.antt =====
-- Rows that do not clash, and what filters and updates do to them.
use opendash.Prelude.{
  ◌≡◌, refl, Bool, true, false, List, [], ◌∷◌, arith, All, keep, exists, update_if, Bool-cases, inl,
  inr,
}

module _ {A : Type 0} where
  -- No row clashes with one behind it.
  abbrev pub Distinct : (A → A → Bool) → List A → Type 0
  Distinct clash [] = Unit
  Distinct clash (x ∷ xs) = (exists (clash x) xs ≡ false) × Distinct clash xs

  pub exists-keep_miss :
      (p q : A → Bool) (xs : List A) → exists p xs ≡ false → exists p (keep q xs) ≡ false
  unfolding exists keep
  exists-keep_miss p q [] h = refl
  exists-keep_miss p q (x ∷ xs) h = ground (arith, exists-keep_miss p q xs)

  pub Distinct-keep :
      (clash : A → A → Bool) (q : A → Bool) (xs : List A)
      → Distinct clash xs
      → Distinct clash (keep q xs)
  unfolding keep
  Distinct-keep clash q [] h = tt
  Distinct-keep clash q (x ∷ xs) h = elim (Bool-cases (q x)) [
    | inl e ↦ rw e (exists-keep_miss (clash x) q xs h.0, Distinct-keep clash q xs h.1)
    | inr e ↦ rw e (Distinct-keep clash q xs h.1)
  ]

  pub exists-update :
      (p q : A → Bool) (f : A → A) (xs : List A)
      → ((x : A) → p (f x) ≡ p x)
      → exists p (update_if q f xs) ≡ exists p xs
  unfolding exists update_if
  exists-update p q f [] h = refl
  exists-update p q f (x ∷ xs) h = ground (arith, h x, exists-update p q f xs h)

  pub exists_congr :
      (p q : A → Bool) (xs : List A) → ((x : A) → p x ≡ q x) → exists p xs ≡ exists q xs
  unfolding exists
  exists_congr p q [] h = refl
  exists_congr p q (x ∷ xs) h = ground (arith, h x, exists_congr p q xs h)

  -- An update that does not touch what the clash reads.
  pub Distinct-update :
      (clash : A → A → Bool) (q : A → Bool) (f : A → A) (xs : List A)
      → ((x y : A) → clash x (f y) ≡ clash x y)
      → ((x y : A) → clash (f x) y ≡ clash x y)
      → Distinct clash xs
      → Distinct clash (update_if q f xs)
  unfolding update_if
  Distinct-update clash q f [] hr hl h = tt
  Distinct-update clash q f (x ∷ xs) hr hl h = elim (Bool-cases (q x)) [
    | inl e ↦ rw e (
      rw (exists-update (clash (f x)) q f xs (hr (f x)))
          (rw (exists_congr (clash (f x)) (clash x) xs (hl x)) h.0),
      Distinct-update clash q f xs hr hl h.1,
    )
    | inr e ↦
        rw e
          (rw (exists-update (clash x) q f xs (hr x)) h.0, Distinct-update clash q f xs hr hl h.1)
  ]

  pub All-keep : (P : A → Type 0) (q : A → Bool) (xs : List A) → All P xs → All P (keep q xs)
  unfolding keep
  All-keep P q [] h = tt
  All-keep P q (x ∷ xs) h = elim (Bool-cases (q x)) [
    | inl e ↦ rw e (h.0, All-keep P q xs h.1)
    | inr e ↦ rw e (All-keep P q xs h.1)
  ]

  -- What the kept elements satisfy may use that they passed the test.
  pub All-keep_test :
      (P Q : A → Type 0) (q : A → Bool) (xs : List A)
      → ((x : A) → q x ≡ true → P x → Q x)
      → All P xs
      → All Q (keep q xs)
  unfolding keep
  All-keep_test P Q q [] f h = tt
  All-keep_test P Q q (x ∷ xs) f h = elim (Bool-cases (q x)) [
    | inl e ↦ rw e (f x e h.0, All-keep_test P Q q xs f h.1)
    | inr e ↦ rw e (All-keep_test P Q q xs f h.1)
  ]

  pub All-map : (P Q : A → Type 0) (xs : List A) → ((x : A) → P x → Q x) → All P xs → All Q xs
  All-map P Q [] f h = tt
  All-map P Q (x ∷ xs) f h = (f x h.0, All-map P Q xs f h.1)

  pub All-update :
      (P : A → Type 0) (q : A → Bool) (f : A → A) (xs : List A)
      → ((x : A) → P x → P (f x))
      → All P xs
      → All P (update_if q f xs)
  unfolding update_if
  All-update P q f [] k h = tt
  All-update P q f (x ∷ xs) k h = elim (Bool-cases (q x)) [
    | inl e ↦ rw e (k x h.0, All-update P q f xs k h.1)
    | inr e ↦ rw e (h.0, All-update P q f xs k h.1)
  ]

  -- Elements that fail the test stay, those that pass it are changed.
  pub All-update_test :
      (P Q : A → Type 0) (q : A → Bool) (f : A → A) (xs : List A)
      → ((x : A) → q x ≡ true → P x → Q (f x))
      → ((x : A) → q x ≡ false → P x → Q x)
      → All P xs
      → All Q (update_if q f xs)
  unfolding update_if
  All-update_test P Q q f [] k l h = tt
  All-update_test P Q q f (x ∷ xs) k l h = elim (Bool-cases (q x)) [
    | inl e ↦ rw e (k x e h.0, All-update_test P Q q f xs k l h.1)
    | inr e ↦ rw e (l x e h.0, All-update_test P Q q f xs k l h.1)
  ]
