-- ===== src/Catalog/Validate.antt =====
-- internal/catalog/catalog.go: which manifests are accepted. A Go map is ranged over in the order of its
-- list, which decides only which of several errors is returned.
pub mod Accepted
use Prim.Native.Char.{code}
use opendash.Prelude.{
  ℕ, String, Bool, true, false, ◌||◌, ◌&&◌, not, Option, none, some, List, [], ◌∷◌, Result, ok, err,
  reject_if, ◌>>◌, ◌>>=◌, leb, nat_eq, ◌==◌, if◌then◌else◌, length, split, trim_space, is_digit,
  exists,
}
use opendash.Prelude.Int.{ℤ, int_eq}
use opendash.Models.Manifest.{
  Manifest, ManifestService, ManifestInlineCompose, ManifestCompose, ManifestStorage,
  ManifestConfig, ManifestEndpoint,
}
use opendash.Catalog.Ports.{parse_port_mapping}

-- The text is not empty and all its characters are of the class.
abbrev all_chars : (ℕ → Bool) → String → Bool
all_chars p String.[] = true
all_chars p (String.◌∷◌ c s) = p (code c) && all_chars p s

abbrev some_chars : (ℕ → Bool) → String → Bool
some_chars p s = not (s == "") && all_chars p s

abbrev is_lower : ℕ → Bool
is_lower c = leb b'a' c && leb c b'z'

abbrev is_upper : ℕ → Bool
is_upper c = leb b'A' c && leb c b'Z'

-- [a-z0-9] and [a-zA-Z0-9.]
abbrev id_char : ℕ → Bool
id_char c = is_lower c || is_digit c

abbrev label_char : ℕ → Bool
label_char c = is_lower c || is_upper c || is_digit c || nat_eq c b'.'

abbrev all_parts : (String → Bool) → List String → Bool
all_parts p [] = true
all_parts p (s ∷ rest) = p s && all_parts p rest

-- idPattern: parts of [a-z0-9]+ between dashes
unfoldable pub id_matches : String → Bool
unfolding split is_digit
id_matches s = all_parts (some_chars id_char) (split b'-' s)

abbrev core_matches : List String → Bool
core_matches (a ∷ b ∷ c ∷ []) =
    some_chars is_digit a && some_chars is_digit b && some_chars is_digit c
core_matches _ = false

-- a part, and perhaps one more behind the separator
abbrev with_label : (String → Bool) → List String → Bool
with_label p (core ∷ []) = p core
with_label p (core ∷ label ∷ []) = p core && some_chars label_char label
with_label p _ = false

-- semVerPattern: three numbers, perhaps a label behind a dash, perhaps one behind a plus sign; a label
-- has neither of these characters
unfoldable pub version_matches : String → Bool
unfolding split is_digit
version_matches s =
    with_label (λ t. with_label (λ core. core_matches (split b'.' core)) (split b'-' t))
      (split b'+' s)

pub data ManifestError : Type 0 where
  invalid_id invalid_version : String → ManifestError
  name_required compose_required compose_exclusive services_required : ManifestError
  image_required : String → ManifestError
  invalid_port : String → String → ManifestError
  duplicate_storage duplicate_config : String → ManifestError
  duplicate_endpoint : ℤ → ManifestError

abbrev pub is_none {ℓ} : {A : Type ℓ} → Option A → Bool
is_none none = true
is_none (some _) = false

abbrev pub check_ports : String → List String → Result ManifestError (Unit {0})
check_ports name [] = ok tt
check_ports name (p ∷ ps) = do
  reject_if (is_none (parse_port_mapping p)) (invalid_port name p)
  check_ports name ps

abbrev pub check_services : List (String × ManifestService) → Result ManifestError (Unit {0})
check_services [] = ok tt
check_services ((name, svc) ∷ rest) = do
  reject_if (svc.image == "") (image_required name)
  check_ports name svc.ports
  check_services rest

abbrev check_inline : Option ManifestInlineCompose → Result ManifestError (Unit {0})
check_inline none = ok tt
check_inline (some c) = do
  reject_if (nat_eq (length c.services) 0) services_required
  check_services c.services

-- The loops with a map of what was seen.
abbrev pub check_unique :
    {A K : Type 0}
    → (K → K → Bool)
    → (A → K)
    → (K → ManifestError)
    → List K
    → List A
    → Result ManifestError (Unit {0})
check_unique eq key e seen [] = ok tt
check_unique eq key e seen (x ∷ xs) = do
  reject_if (exists (eq (key x)) seen) (e (key x))
  check_unique eq key e (key x ∷ seen) xs

abbrev pub text_eq : String → String → Bool
text_eq a b = a == b

-- ValidateManifest
unfoldable pub validate_manifest : Manifest → Result ManifestError (Unit {0})
unfolding id_matches version_matches exists
validate_manifest m = do
  reject_if (not (id_matches m.id)) (invalid_id m.id)
  reject_if (trim_space m.name == "") name_required
  reject_if (not (version_matches m.version)) (invalid_version m.version)
  reject_if (m.compose.file == "" && is_none m.compose.inline) compose_required
  reject_if (not (m.compose.file == "") && not (is_none m.compose.inline)) compose_exclusive
  check_inline m.compose.inline
  check_unique text_eq (λ (s : ManifestStorage). s.name) duplicate_storage [] m.storage
  check_unique text_eq (λ (c : ManifestConfig). c.key) duplicate_config [] m.config
  check_unique int_eq (λ (e : ManifestEndpoint). e.port) duplicate_endpoint [] m.endpoints
