-- ===== src/Api/Redact/Absent.antt =====
-- Which values a redacted text does not contain.
use Prim.Native.String.{len}
use opendash.Prelude.{
  ℕ, suc, nat_eq, ◌≡◌, ◌≢◌, refl, ◌∙◌, String, true, false, some, List, [], ◌∷◌, ◌≤◌, arith, ◌==◌,
  eq_iff, contains, has_prefix, exists, length, Bool-cases, inl, inr, leb,
}
use opendash.Prelude.Maps.{get, text_key}
use opendash.Prelude.Replace.{
  replace_all, mask, star_free, contains-replace_all, replace_all-absent,
}
use opendash.Api.Redact.{Texts, long_values, redact_each, redact_secrets}

len_empty : len "" ≡ 0
len_empty = refl

empty_no : (v : String) → 3 ≤ len v → v ≢ ""
empty_no v h e = absurd (omega (arith, rw e at h))

long_present :
    (v m : String) (secrets : Texts)
    → get v secrets ≡ some m
    → 3 ≤ len v
    → exists (λ w. w == v) (long_values secrets) ≡ true
unfolding get exists
long_present v m [] h n = cc
long_present v m ((w, x) ∷ secrets) h n = elim (Bool-cases (w == v)) [
  | inl e ↦
      (let same : w ≡ v = (eq_iff w v).0 e in
        let enough : leb 3 (len w) ≡ true = rw same (ground arith) in rw (enough, e) refl)
  | inr e ↦
      (let rest = long_present v m secrets (rw e at h) n in
        elim (Bool-cases (leb 3 (len w))) [
          | inl long ↦ rw (long, e) rest
          | inr short ↦ rw short rest
        ])
]

-- Every value to mask is not the empty text.
values_nonempty : (secrets : Texts) → exists (λ w. w == "") (long_values secrets) ≡ false
unfolding exists
values_nonempty [] = refl
values_nonempty ((w, x) ∷ secrets) = elim (Bool-cases (leb 3 (len w))) [
  | inl long ↦
      (let other : w == "" ≡ false = not_empty w long in rw (long, other) (values_nonempty secrets))
  | inr short ↦ rw short (values_nonempty secrets)
]
  where
    not_empty : (w : String) → leb 3 (len w) ≡ true → w == "" ≡ false
    not_empty w h = ground (arith, eq_iff w "", empty_no w)

redact_each-absent :
    (vs : List String) (v s : String)
    → star_free v ≡ true
    → v ≢ ""
    → exists (λ w. w == "") vs ≡ false
    → contains s v ≡ false
    → contains (redact_each vs s) v ≡ false
unfolding redact_each exists
redact_each-absent [] v s f n h e = e
redact_each-absent (w ∷ vs) v s f n h e =
    redact_each-absent vs v (replace_all s w mask) f n (ground arith)
      (contains-replace_all w s v f n (λ q. ground (arith, eq_iff w "")) e)

redact_each-listed :
    (vs : List String) (v s : String)
    → star_free v ≡ true
    → v ≢ ""
    → exists (λ w. w == "") vs ≡ false
    → exists (λ w. w == v) vs ≡ true
    → contains (redact_each vs s) v ≡ false
unfolding redact_each exists
redact_each-listed [] v s f n h e = cc
redact_each-listed (w ∷ vs) v s f n h e = elim (Bool-cases (w == v)) [
  | inl same ↦
      redact_each-absent vs v (replace_all s w mask) f n (ground arith)
        (rw ((eq_iff w v).0 same) (replace_all-absent v s f n))
  | inr other ↦ redact_each-listed vs v (replace_all s w mask) f n (ground arith) (ground arith)
]

-- A text from which the secrets are removed contains no value of a secret that has at least three bytes and no asterisk; the sort of the
-- values is assumed to keep the elements of a list.
pub redact-absent :
    (longest_first : List String → List String) (secrets : Texts) (output v m : String)
    → ((w : String) (vs : List String)
        → exists (λ x. x == w) (longest_first vs) ≡ exists (λ x. x == w) vs)
    → get v secrets ≡ some m
    → 3 ≤ len v
    → star_free v ≡ true
    → contains (redact_secrets longest_first secrets output) v ≡ false
unfolding redact_secrets get contains has_prefix
redact-absent longest_first [] output v m kept h n f = cc
redact-absent longest_first (s ∷ secrets) output v m kept h n f = elim (Bool-cases (output == "")) [
  | inl e ↦
      rw (filled (length secrets), e) (rw ((eq_iff output "").0 e) (empty_lacks v (empty_no v n)))
  | inr e ↦
      rw (filled (length secrets), e)
        (redact_each-listed (longest_first (long_values (s ∷ secrets))) v output f (empty_no v n)
          (kept "" (long_values (s ∷ secrets)) ∙ values_nonempty (s ∷ secrets))
          (kept v (long_values (s ∷ secrets)) ∙ long_present v m (s ∷ secrets) h n))
]
  where
    filled : (n : ℕ) → nat_eq (suc n) 0 ≡ false
    filled n = ground arith

    empty_lacks : (v : String) → v ≢ "" → contains "" v ≡ false
    empty_lacks String.[] n = absurd (n refl)
    empty_lacks (String.◌∷◌ c v) n = refl
