-- ===== src/Prelude/Strings.antt =====
-- The parts of Go's `strings`, `strconv` and `unicode` that the program calls, over characters.
use Prim.Native.Nat.{ℕ, zero, suc, ◌+◌, ◌-◌, ◌*◌, ◌^◌, ◌/◌, ◌%◌}
use Prim.Native.Char.{Char, code}
use Prim.Native.String.{String, ◌++◌ as ◌<>◌}
use mathlib.Core.Path.{◌≡◌, refl}
use mathlib.Core.Bool.{Bool, true, false, ◌&&◌, ◌||◌}
use mathlib.Core.Option.{Option, none, some}
use mathlib.Core.List.{List, [], ◌∷◌}
use opendash.Prelude.Tests.{ltb, leb, nat_eq, ◌==◌, if◌then◌else◌}
use opendash.Prelude.Int.{ℤ, pos, negsuc}

-- unicode.IsSpace
unfoldable pub is_space : ℕ → Bool
is_space c =
    (leb 9 c && leb c 13)
    || nat_eq c 32
    || nat_eq c 0x85
    || nat_eq c 0xa0
    || nat_eq c 0x1680
    || (leb 0x2000 c && leb c 0x200a)
    || nat_eq c 0x2028
    || nat_eq c 0x2029
    || nat_eq c 0x202f
    || nat_eq c 0x205f
    || nat_eq c 0x3000

unfoldable pub is_digit : ℕ → Bool
is_digit c = leb b'0' c && leb c b'9'

-- what `strings.TrimLeft` leaves
unfoldable pub trim_left : String → String
trim_left String.[] = String.[]
trim_left (String.◌∷◌ c s) = if is_space (code c) then trim_left s else String.◌∷◌ c s

unfoldable pub trim_right : String → String
trim_right String.[] = String.[]
trim_right (String.◌∷◌ c s) =
    let rest = trim_right s in
    if rest == "" && is_space (code c) then String.[] else String.◌∷◌ c rest

unfoldable pub trim_space : String → String
unfolding trim_left trim_right is_space
trim_space s = trim_right (trim_left s)

-- put a character in front of the first part
abbrev pub onto_first : Char → List String → List String
onto_first c [] = String.◌∷◌ c String.[] ∷ []
onto_first c (p ∷ ps) = String.◌∷◌ c p ∷ ps

-- strings.Split by a separator of one character: always at least one part
unfoldable pub split : ℕ → String → List String
split sep String.[] = String.[] ∷ []
split sep (String.◌∷◌ c s) =
    let rest = split sep s in if nat_eq (code c) sep then String.[] ∷ rest else onto_first c rest

-- the value of a run of ASCII digits behind an accumulator
unfoldable pub digits : ℕ → String → Option ℕ
digits n String.[] = some n
digits n (String.◌∷◌ c s) =
    let rest = digits (n * 10 + (code c - 48)) s in if is_digit (code c) then rest else none

abbrev pub all_digits : String → Option ℕ
all_digits s = if s == "" then none else digits 0 s

abbrev max_int : ℕ
max_int = 2 ^ 63 - 1

abbrev pub positive : Option ℕ → Option ℤ
positive none = none
positive (some n) = if leb n max_int then some (pos n) else none

abbrev negate : ℕ → ℤ
negate zero = pos 0
negate (suc n) = negsuc n

abbrev pub negative : Option ℕ → Option ℤ
negative none = none
negative (some n) = if leb n (max_int + 1) then some (negate n) else none

-- strconv.Atoi, on a 64-bit platform
unfoldable pub atoi : String → Option ℤ
unfolding digits is_digit
atoi String.[] = none
atoi (String.◌∷◌ c s) =
    if nat_eq (code c) b'-'
    then negative (all_digits s)
    else if nat_eq (code c) b'+'
    then positive (all_digits s)
    else positive (digits 0 (String.◌∷◌ c s))

-- strings.HasPrefix
unfoldable pub has_prefix : String → String → Bool
has_prefix s String.[] = true
has_prefix String.[] (String.◌∷◌ d p) = false
has_prefix (String.◌∷◌ c s) (String.◌∷◌ d p) = nat_eq (code c) (code d) && has_prefix s p

-- strings.Contains
unfoldable pub contains : String → String → Bool
unfolding has_prefix
contains String.[] p = has_prefix String.[] p
contains (String.◌∷◌ c s) p = has_prefix (String.◌∷◌ c s) p || contains s p

-- strings.TrimPrefix
unfoldable pub trim_prefix : String → String → String
trim_prefix s String.[] = s
trim_prefix String.[] (String.◌∷◌ d p) = String.[]
trim_prefix (String.◌∷◌ c s) (String.◌∷◌ d p) =
    let rest = trim_prefix s p in
    if nat_eq (code c) (code d) && has_prefix s p then rest else String.◌∷◌ c s

atoi_runs : atoi "-12" ≡ some (negsuc 11)
unfolding atoi
atoi_runs = refl

atoi_overflow : atoi "9223372036854775808" ≡ none
unfolding atoi
atoi_overflow = refl

split_runs : split b':' "127.0.0.1:80:" ≡ "127.0.0.1" ∷ "80" ∷ "" ∷ []
unfolding split
split_runs = refl

trim_runs : trim_space " a b\n" ≡ "a b"
unfolding trim_space
trim_runs = refl

trim_prefix_runs : trim_prefix "http://a" "http://" ≡ "a"
unfolding trim_prefix has_prefix
trim_prefix_runs = refl

abbrev pub digit : ℕ → String
digit n =
    if nat_eq n 0
    then "0"
    else if nat_eq n 1
    then "1"
    else if nat_eq n 2
    then "2"
    else if nat_eq n 3
    then "3"
    else if nat_eq n 4
    then "4"
    else if nat_eq n 5
    then "5"
    else if nat_eq n 6
    then "6"
    else if nat_eq n 7
    then "7"
    else if nat_eq n 8
    then "8"
    else "9"

-- a number has at most as many digits as its value, and one more where it is 0
unfoldable pub decimal : ℕ → ℕ → String
decimal zero n = digit n
decimal (suc fuel) n = elim (ltb n 10) [
  | true ↦ digit n
  | false ↦ decimal fuel (n / 10) <> digit (n % 10)
]

-- fmt's %d
unfoldable pub itoa : ℕ → String
unfolding decimal
itoa n = decimal n n

-- strconv.Itoa
unfoldable pub int_text : ℤ → String
unfolding itoa
int_text (pos n) = itoa n
int_text (negsuc n) = "-" <> itoa (n + 1)

itoa_runs : itoa 65535 ≡ "65535"
unfolding itoa
itoa_runs = refl
