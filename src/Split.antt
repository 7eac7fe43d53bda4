-- ===== src/Split.antt =====
-- What `split` does to texts that lack the separator, and to their concatenations.
use Prim.Native.Char.{Char, code}
use Prim.Native.String.{String, ◌++◌}
use Prim.Native.String.append
use opendash.Prelude.{ℕ, ◌≡◌, refl, Bool, true, false, [], ◌∷◌, arith, nat_eq, split, not, ◌&&◌}

-- The character of code `sep` does not occur.
abbrev pub Lacks : ℕ → String → Type 0
Lacks sep String.[] = Unit
Lacks sep (String.◌∷◌ c s) = (nat_eq (code c) sep ≡ false) × Lacks sep s

pub split-Lacks : (sep : ℕ) (s : String) → Lacks sep s → split sep s ≡ s ∷ []
unfolding split
split-Lacks sep String.[] h = refl
split-Lacks sep (String.◌∷◌ c s) h = rw (split-Lacks sep s h.1, h.0)

pub split-append :
    (sep : ℕ) (p : String) (d : Char) (rest : String)
    → Lacks sep p
    → nat_eq (code d) sep ≡ true
    → split sep (p ++ String.◌∷◌ d rest) ≡ p ∷ split sep rest
unfolding split
split-append sep String.[] d rest h e = rw (append.nil, e)
split-append sep (String.◌∷◌ c s) d rest h e =
    rw (append.cons, split-append sep s d rest h.1 e, h.0)

-- The same as a test, for literals.
abbrev pub lacks : ℕ → String → Bool
lacks sep String.[] = true
lacks sep (String.◌∷◌ c s) = not (nat_eq (code c) sep) && lacks sep s

pub lacks-Lacks : (sep : ℕ) (s : String) → lacks sep s ≡ true → Lacks sep s
lacks-Lacks sep String.[] h = tt
lacks-Lacks sep (String.◌∷◌ c s) h = (ground arith, lacks-Lacks sep s (ground arith))

-- A part, the dollar sign and the rest.
pub split-dollar :
    (p rest : String) → Lacks b'$' p → split b'$' (p ++ ("$" ++ rest)) ≡ p ∷ split b'$' rest
split-dollar p rest h = rw (append.cons, append.nil) (split-append b'$' p _ rest h refl)

pub split-dollar_first : (rest : String) → split b'$' ("$" ++ rest) ≡ "" ∷ split b'$' rest
unfolding split
split-dollar_first rest = rw (append.cons, append.nil)
