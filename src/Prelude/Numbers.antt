-- ===== src/Prelude/Numbers.antt =====
-- The decimal text of a number is read back as the number.
use Prim.Native.Char.{Char, code}
use Prim.Native.String.{String, ◌++◌}
use Prim.Native.String.append
use Prim.Native.Nat.{ℕ, zero, suc, ◌+◌, ◌-◌, ◌*◌, ◌/◌, ◌%◌, ◌^◌, ◌≤◌, ◌<◌}
use mathlib.Core.Path.{◌≡◌, refl, ap, sym, ◌∙◌}
use mathlib.Core.Bool.{true, false}
use mathlib.Core.Logic.{◌≢◌, inl, inr}
use mathlib.Core.Option.{some, some-injective}
use native.Mathlib.Omega.{arith}
use opendash.Prelude.Tests.{ltb, leb, nat_eq, Bool-cases}
use opendash.Prelude.Int.{pos}
use opendash.Prelude.Strings.{is_digit, digit, decimal, digits, itoa, atoi}

-- A digit is one character.
numeral : (k : ℕ) → k < 10 → (c : Char) × (digit k ≡ String.◌∷◌ c String.[]) × (code c ≡ 48 + k)
numeral zero h = ("0", refl, refl)
numeral (suc zero) h = ("1", refl, refl)
numeral (suc (suc zero)) h = ("2", refl, refl)
numeral (suc (suc (suc zero))) h = ("3", refl, refl)
numeral (suc (suc (suc (suc zero)))) h = ("4", refl, refl)
numeral (suc (suc (suc (suc (suc zero))))) h = ("5", refl, refl)
numeral (suc (suc (suc (suc (suc (suc zero)))))) h = ("6", refl, refl)
numeral (suc (suc (suc (suc (suc (suc (suc zero))))))) h = ("7", refl, refl)
numeral (suc (suc (suc (suc (suc (suc (suc (suc zero)))))))) h = ("8", refl, refl)
numeral (suc (suc (suc (suc (suc (suc (suc (suc (suc zero))))))))) h = ("9", refl, refl)
numeral (suc (suc (suc (suc (suc (suc (suc (suc (suc (suc k)))))))))) h = absurd (omega arith)

digits-digit : (acc k : ℕ) → k < 10 → digits acc (digit k) ≡ some (acc * 10 + k)
unfolding digits is_digit
digits-digit acc k h = let (c, e, n) = numeral k h in rw (e, n) (ground arith)

digits-append :
    (s : String) (acc v k : ℕ)
    → k < 10
    → digits acc s ≡ some v
    → digits acc (s ++ digit k) ≡ some (v * 10 + k)
unfolding digits
digits-append String.[] acc v k h e =
    rw append.nil (digits-digit acc k h ∙ ap (λ (n : ℕ). some (n * 10 + k)) (some-injective _ _ e))
digits-append (String.◌∷◌ c s) acc v k h e = elim (Bool-cases (is_digit (code c))) [
  | inl d ↦ rw (append.cons, d) (digits-append s (acc * 10 + (code c - 48)) v k h (rw d at e))
  | inr d ↦ absurd (let impossible = rw d at e in cc)
]

decimal_small : (fuel n : ℕ) → ltb n 10 ≡ true → decimal (suc fuel) n ≡ digit n
unfolding decimal
decimal_small fuel n e = rw (e, decimal) refl

decimal_large :
    (fuel n : ℕ) → ltb n 10 ≡ false → decimal (suc fuel) n ≡ decimal fuel (n / 10) ++ digit (n % 10)
unfolding decimal
decimal_large fuel n e = rw (e, decimal) refl

pub digits-decimal : (fuel n : ℕ) → n ≤ fuel → digits 0 (decimal fuel n) ≡ some n
unfolding decimal
digits-decimal zero n h = digits-digit 0 n (omega arith) ∙ ap (λ (m : ℕ). some m) (omega arith)
digits-decimal (suc fuel) n h = elim (Bool-cases (ltb n 10)) [
  | inl e ↦
      rw (decimal_small fuel n e)
        (digits-digit 0 n (ground arith) ∙ ap (λ (m : ℕ). some m) (omega arith))
  | inr e ↦
      (let ten : 10 ≤ n = ground arith in
        let less : n / 10 ≤ fuel = omega arith in
        let back : n / 10 * 10 + n % 10 ≡ n = omega arith in
        rw (decimal_large fuel n e) (
          digits-append (decimal fuel (n / 10)) 0 (n / 10) (n % 10) (omega arith)
            (digits-decimal fuel (n / 10) less)
          ∙ ap (λ (m : ℕ). some m) back))
]

-- A text whose digits are read starts with no sign.
atoi-digits :
    (s : String) (n : ℕ) → s ≢ "" → n ≤ 2 ^ 63 - 1 → digits 0 s ≡ some n → atoi s ≡ some (pos n)
unfolding atoi digits is_digit
atoi-digits String.[] n h b e = absurd (h refl)
atoi-digits (String.◌∷◌ c s) n h b e = elim (Bool-cases (is_digit (code c))) [
  | inl d ↦
      (let value = rw d at e in
        let no_minus : nat_eq (code c) b'-' ≡ false = ground arith in
        let no_plus : nat_eq (code c) b'+' ≡ false = ground arith in
        let small : leb n (2 ^ 63 - 1) ≡ true = ground arith in
        rw (no_minus, no_plus, d, value, small) refl)
  | inr d ↦ absurd (let impossible = rw d at e in cc)
]

digit-nonempty : (k : ℕ) → k < 10 → digit k ≢ ""
digit-nonempty k h q = (let (c, e, n) = numeral k h in absurd (cons_no c (sym e ∙ q)))
  where
    cons_no : (c : Char) → String.◌∷◌ c String.[] ≡ "" → ⊥
    cons_no c q = cc

append-nonempty : (s t : String) → t ≢ "" → s ++ t ≢ ""
append-nonempty String.[] t h q = h (sym (append.nil t) ∙ q)
append-nonempty (String.◌∷◌ c s) t h q = (let q' = rw append.cons at q in cc)

decimal-nonempty : (fuel n : ℕ) → n ≤ fuel → decimal fuel n ≢ ""
unfolding decimal
decimal-nonempty zero n h = digit-nonempty n (omega arith)
decimal-nonempty (suc fuel) n h = elim (Bool-cases (ltb n 10)) [
  | inl e ↦ rw (decimal_small fuel n e) (digit-nonempty n (ground arith))
  | inr e ↦ rw (decimal_large fuel n e) (
      append-nonempty (decimal fuel (n / 10)) (digit (n % 10))
        (digit-nonempty (n % 10) (omega arith)))
]

-- strconv.Atoi of strconv.Itoa
pub atoi-itoa : (n : ℕ) → n ≤ 2 ^ 63 - 1 → atoi (itoa n) ≡ some (pos n)
unfolding itoa
atoi-itoa n h =
    atoi-digits (decimal n n) n (decimal-nonempty n n (omega arith)) h
      (digits-decimal n n (omega arith))
