-- ===== src/Catalog/Ports.antt =====
-- internal/catalog/catalog.go: port mappings and the ports of URLs.
pub mod Range
use opendash.Prelude.{
  ℕ, String, Bool, true, false, ◌||◌, ◌&&◌, not, Option, none, some, List, [], ◌∷◌, ◌==◌,
  if◌then◌else◌, split, trim_space, atoi, trim_prefix, contains, has_prefix, exists,
}
use opendash.Prelude.Int.{ℤ, pos, int_leb}

-- `hp < 1 || hp > 65535` is the rejection
abbrev pub in_port_range : ℤ → Bool
in_port_range n = int_leb (pos 1) n && int_leb n (pos 65535)

abbrev pub checked_port : Option ℤ → Option ℤ
checked_port none = none
checked_port (some n) = if in_port_range n then some n else none

abbrev both : Option ℤ → Option ℤ → Option (ℤ × ℤ)
both none b = none
both (some a) none = none
both (some a) (some b) = some (a, b)

abbrev container_only : Option ℤ → Option (ℤ × ℤ)
container_only none = none
container_only (some n) = some (pos 0, n)

abbrev pub parse_parts : List String → Option (ℤ × ℤ)
parse_parts (c ∷ []) = container_only (atoi (trim_space c))
parse_parts (h ∷ c ∷ []) =
    both (checked_port (atoi (trim_space h))) (checked_port (atoi (trim_space c)))
parse_parts (a ∷ h ∷ c ∷ []) =
    both (checked_port (atoi (trim_space h))) (checked_port (atoi (trim_space c)))
parse_parts _ = none

-- ParsePortMapping: the host port, 0 where there is none, and the container port; `none` where it
-- returns an error
unfoldable pub parse_port_mapping : String → Option (ℤ × ℤ)
unfolding split
parse_port_mapping s = parse_parts (split b':' s)

-- net.SplitHostPort of an address that does not start with a bracket
abbrev plain_port : List String → Option String
plain_port (host ∷ port ∷ []) =
    if contains host "[" || contains host "]" || contains port "[" || contains port "]"
    then none
    else some port
plain_port _ = none

-- what follows the closing bracket
abbrev bracket_port : List String → Option String
bracket_port (before ∷ port ∷ []) =
    if before == "" && not (contains port "[") then some port else none
bracket_port _ = none

-- behind the opening bracket: the host, the closing bracket, a colon and the port
abbrev bracket_parts : List String → Option String
bracket_parts (host ∷ tail ∷ []) =
    if contains host "[" then none else bracket_port (split b':' tail)
bracket_parts _ = none

-- net.SplitHostPort: the port, or `none` where it returns an error
unfoldable pub split_port : String → Option String
unfolding split contains has_prefix trim_prefix
split_port s =
    if has_prefix s "["
    then bracket_parts (split b']' (trim_prefix s "["))
    else plain_port (split b':' s)

abbrev or_zero : Option ℤ → ℤ
or_zero none = pos 0
or_zero (some n) = n

abbrev number_of : Option String → Option ℤ
number_of none = none
number_of (some port) = atoi port

-- urlPort
unfoldable pub url_port : String → ℤ
unfolding split_port atoi
url_port raw = or_zero (number_of (split_port (trim_prefix (trim_prefix raw "https://") "http://")))
