-- ===== src/Catalog/Compose/OneLine.antt =====
-- Texts of one line.
use Prim.Native.String.{◌++◌ as ◌<>◌}
use Prim.Native.String.append
use Prim.Native.Char.{code}
use opendash.Prelude.{
  ◌≡◌, refl, ap, ℕ, ◌+◌, ◌-◌, ◌*◌, String, true, false, some, List, [], ◌∷◌, Result, ok, err, split,
  onto_first, All, arith, Bool-cases, inl, inr, nat_eq, digits, is_digit, itoa, int_text, decimal,
}
use opendash.Prelude.Int.{ℤ, pos, negsuc}
use opendash.Prelude.Numbers.{digits-decimal}
use opendash.Prelude.Maps.{text_key, int_key}
use opendash.Split.{Lacks, lacks-Lacks}
use opendash.Catalog.Compose.{is_env_key, is_env_rest, join_with, escape, line, ComposeError}

-- No end of a line stands in the text.
abbrev pub OneLine : String → Type 0
OneLine s = Lacks b'\n' s

pub append-OneLine : (s t : String) → OneLine s → OneLine t → OneLine (s <> t)
append-OneLine String.[] t h k = rw append.nil k
append-OneLine (String.◌∷◌ c s) t h k = rw append.cons (h.0, append-OneLine s t h.1 k)

split-OneLine : (s : String) → All OneLine (split b'\n' s)
unfolding split
split-OneLine String.[] = (tt, tt)
split-OneLine (String.◌∷◌ c s) = elim (Bool-cases (nat_eq (code c) b'\n')) [
  | inl e ↦ rw e (tt, split-OneLine s)
  | inr e ↦ rw e (go e (split b'\n' s) (split-OneLine s))
]
  where
    go :
        nat_eq (code c) b'\n' ≡ false
        → (parts : List String) → All OneLine parts
        → All OneLine (onto_first c parts)
    go e [] h = ((e, tt), tt)
    go e (p ∷ ps) h = ((e, h.0), h.1)

pub ok-injective : {A : Type 0} {a b : A} → ◌≡◌ {A = Result ComposeError A} (ok a) (ok b) → a ≡ b
ok-injective {A} {a} h = ap (λ (r : Result ComposeError A). elim r [ ok x ↦ x | err e ↦ a ]) h

join-OneLine :
    (sep : String) (parts : List String)
    → OneLine sep
    → All OneLine parts
    → OneLine (join_with sep parts)
join-OneLine sep [] h k = tt
join-OneLine sep (p ∷ []) h k = k.0
join-OneLine sep (p ∷ q ∷ rest) h k =
    append-OneLine p (sep <> join_with sep (q ∷ rest)) k.0
      (append-OneLine sep (join_with sep (q ∷ rest)) h (join-OneLine sep (q ∷ rest) h k.1))

pub escape-OneLine : (v : String) → OneLine (escape v)
unfolding escape
escape-OneLine v =
    join-OneLine "\\n" (split b'\n' v) (lacks-Lacks b'\n' "\\n" refl) (split-OneLine v)

key_rest-OneLine : (s : String) → is_env_rest s ≡ true → OneLine s
key_rest-OneLine String.[] h = tt
key_rest-OneLine (String.◌∷◌ c s) h = (ground arith, key_rest-OneLine s (ground arith))

pub key-OneLine : (s : String) → is_env_key s ≡ true → OneLine s
key-OneLine String.[] h = cc
key-OneLine (String.◌∷◌ c s) h = (ground arith, key_rest-OneLine s (ground arith))

digits-OneLine : (acc : ℕ) (s : String) {v : ℕ} → digits acc s ≡ some v → OneLine s
unfolding digits is_digit
digits-OneLine acc String.[] h = tt
digits-OneLine acc (String.◌∷◌ c s) h = elim (Bool-cases (is_digit (code c))) [
  | inl d ↦ (ground arith, digits-OneLine (acc * 10 + (code c - 48)) s (rw d at h))
  | inr d ↦ absurd (let impossible = rw d at h in cc)
]

pub int_text-OneLine : (n : ℤ) → OneLine (int_text n)
unfolding int_text itoa
int_text-OneLine (pos n) = digits-OneLine 0 (decimal n n) (digits-decimal n n (omega arith))
int_text-OneLine (negsuc n) =
    append-OneLine "-" (decimal (n + 1) (n + 1)) (lacks-Lacks b'\n' "-" refl)
      (digits-OneLine 0 (decimal (n + 1) (n + 1)) (digits-decimal (n + 1) (n + 1) (omega arith)))

pub line-OneLine : (key value : String) → OneLine key → OneLine value → OneLine (line key value)
line-OneLine key value h k =
    append-OneLine key ("=" <> value) h (append-OneLine "=" value (lacks-Lacks b'\n' "=" refl) k)
