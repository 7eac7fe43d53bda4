-- ===== src/Prelude/Spans.antt =====
-- The runs of characters that the program's regular expressions match, and the parts of a text around
-- its last colon.
use Prim.Native.Nat.{ℕ}
use Prim.Native.Char.{code}
use Prim.Native.String.{String}
use mathlib.Core.Path.{◌≡◌, refl}
use mathlib.Core.Bool.{Bool}
use mathlib.Core.Option.{Option, none, some}
use opendash.Prelude.Tests.{nat_eq, if◌then◌else◌}

-- the longest prefix of such characters, and what follows it
unfoldable pub span : (ℕ → Bool) → String → String × String
span p String.[] = (String.[], String.[])
span p (String.◌∷◌ c s) =
    let (run, rest) = span p s in
    if p (code c) then (String.◌∷◌ c run, rest) else (String.[], String.◌∷◌ c s)

-- s[:i] where i is strings.LastIndex(s, sep) for a separator of one character
unfoldable pub before_last : ℕ → String → Option String
before_last sep String.[] = none
before_last sep (String.◌∷◌ c s) = elim (before_last sep s) [
  | some t ↦ some (String.◌∷◌ c t)
  | none ↦ if nat_eq (code c) sep then some String.[] else none
]

before_last_runs : before_last b':' "a:b:c" ≡ some "a:b"
unfolding before_last
before_last_runs = refl
