-- ===== src/Prelude/Maps.antt =====
-- Go maps as association lists with one entry for each key. The program never depends on the order in
-- which a map is ranged over, except where a comment says so.
use Prim.Native.Nat.{◌+◌, ◌≤◌}
use Prim.Native.String.{String}
use mathlib.Core.Path.{◌≡◌, refl}
use mathlib.Core.Logic.{◌↔◌}
use mathlib.Core.Bool.{Bool, true}
use mathlib.Core.Option.{Option, none, some}
use mathlib.Core.List.{List, [], ◌∷◌}
use native.Mathlib.Omega.{arith}
use text.Mathlib.TextEquality.{eq_iff}
use opendash.Prelude.Tests.{◌==◌, if◌then◌else◌}
use opendash.Prelude.Lists.{length, keep}
use opendash.Prelude.Int.{ℤ, int_eq, int_eq_iff}

pub record Eq (K : Type 0) : Type 0 where
  pub beq : K → K → Bool
  pub beq_iff : (a b : K) → (beq a b ≡ true) ↔ (a ≡ b)

instance abbrev pub text_key : Eq String
text_key = record { beq = ◌==◌; beq_iff = eq_iff }

instance abbrev pub int_key : Eq ℤ
int_key = record { beq = int_eq; beq_iff = int_eq_iff }

module _ {K V : Type 0} ⦃e : Eq K⦄ where
  -- v, ok := m[k]
  unfoldable pub get : K → List (K × V) → Option V
  get k [] = none
  get k ((j, v) ∷ m) = if e.beq j k then some v else get k m

  -- m[k] = v
  unfoldable pub put : K → V → List (K × V) → List (K × V)
  put k v [] = (k, v) ∷ []
  put k v ((j, w) ∷ m) = if e.beq j k then (k, v) ∷ m else (j, w) ∷ put k v m

  -- delete(m, k)
  unfoldable pub remove : K → List (K × V) → List (K × V)
  remove k [] = []
  remove k ((j, w) ∷ m) = let rest = remove k m in if e.beq j k then rest else (j, w) ∷ rest

  pub get-put :
      (k j : K) (v : V) (m : List (K × V))
      → get j (put k v m) ≡ (if e.beq k j then some v else get j m)
  unfolding get put
  get-put k j v [] = refl
  get-put k j v ((i, w) ∷ m) =
      ground (arith, e.beq_iff k j, e.beq_iff i k, e.beq_iff i j, get-put k j v m)

  pub get-remove :
      (k j : K) (m : List (K × V)) → get j (remove k m) ≡ (if e.beq k j then none else get j m)
  unfolding get remove
  get-remove k j [] = ground arith
  get-remove k j ((i, w) ∷ m) =
      ground (arith, e.beq_iff k j, e.beq_iff i k, e.beq_iff i j, get-remove k j m)

  -- A filter that keeps an entry does not change its lookup, and no filter adds one.
  pub get-keep_there :
      (p : K × V → Bool) (k : K) (v : V) (m : List (K × V))
      → get k m ≡ some v
      → p (k, v) ≡ true
      → get k (keep p m) ≡ some v
  unfolding get keep
  get-keep_there p k v [] h q = cc
  get-keep_there p k v ((i, w) ∷ m) h q = ground (arith, e.beq_iff i k, get-keep_there p k v m)

  pub get-keep_miss :
      (p : K × V → Bool) (k : K) (m : List (K × V)) → get k m ≡ none → get k (keep p m) ≡ none
  unfolding get keep
  get-keep_miss p k [] h = refl
  get-keep_miss p k ((i, w) ∷ m) h = ground (arith, get-keep_miss p k m)

  pub length-put-le : (k : K) (v : V) (m : List (K × V)) → length (put k v m) ≤ length m + 1
  unfolding put
  length-put-le k v [] = omega arith
  length-put-le k v ((j, w) ∷ m) = ground (arith, length-put-le k v m)

  -- A write to a key that is there adds no entry.
  pub length-put_there :
      (k : K) (v w : V) (m : List (K × V)) → get k m ≡ some w → length (put k v m) ≡ length m
  unfolding put get
  length-put_there k v w [] h = cc
  length-put_there k v w ((j, x) ∷ m) h = ground (arith, length-put_there k v w m)

  pub length-remove-le : (k : K) (m : List (K × V)) → length (remove k m) ≤ length m
  unfolding remove
  length-remove-le k [] = omega arith
  length-remove-le k ((j, w) ∷ m) = ground (arith, length-remove-le k m)
