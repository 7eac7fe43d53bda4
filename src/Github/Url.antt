-- ===== src/Github/Url.antt =====
-- internal/githubsource/parse.go. What net/url and path do is an argument: `url.Parse`, `url.PathUnescape`,
-- `path.Clean` and `path.Join`, and strings.ToLower.
pub mod Safe
pub mod Tests
use Prim.Native.Char.{code}
use Prim.Native.String.{◌++◌ as ◌<>◌}
use opendash.Prelude.{
  ℕ, String, Bool, true, false, ◌||◌, ◌&&◌, not, Option, none, some, List, [], ◌∷◌, Result, ok, err,
  leb, ltb, nat_eq, ◌==◌, if◌then◌else◌, split, has_prefix, contains, trim_prefix, length,
  reject_if, ◌>>=◌, ◌>>◌,
}

-- what url.Parse gives of a URL
pub record ParsedUrl : Type 0 where
  pub scheme : String
  pub host : String
  pub has_user : Bool
  pub fragment : String
  pub raw_query : String
  pub escaped_path : String

pub record UrlLibrary : Type 0 where
  pub parse : String → Option ParsedUrl
  pub path_unescape : String → Option String
  pub clean : String → String
  pub join : List String → String
  pub to_lower : String → String

-- URL
pub record Url : Type 0 where
  pub raw : String
  pub owner : String
  pub repo : String
  pub ref : String
  pub path : String
  pub is_tree : Bool

pub data UrlError : Type 0 where
  invalid_url not_https not_github has_credentials has_fragment has_query invalid_path : UrlError
  invalid_segment : String → UrlError
  empty_path no_view missing_part not_blob_or_tree invalid_owner missing_ref : UrlError
  no_manifest not_json ambiguous : UrlError

-- [A-Za-z0-9_.-]
abbrev is_segment_char : ℕ → Bool
is_segment_char c =
    (leb b'A' c && leb c b'Z')
    || (leb b'a' c && leb c b'z')
    || (leb b'0' c && leb c b'9')
    || nat_eq c b'_'
    || nat_eq c b'.'
    || nat_eq c b'-'

abbrev all_segment_chars : String → Bool
all_segment_chars String.[] = true
all_segment_chars (String.◌∷◌ c s) = is_segment_char (code c) && all_segment_chars s

-- segmentPattern
abbrev pub is_segment : String → Bool
is_segment s = not (s == "") && all_segment_chars s

-- strings.HasSuffix
unfoldable pub has_suffix : String → String → Bool
has_suffix String.[] t = t == ""
has_suffix (String.◌∷◌ c s) t = String.◌∷◌ c s == t || has_suffix s t

-- a segment of the raw path, decoded
abbrev raw_ok : Option String → String → Result UrlError (Unit {0})
raw_ok none seg = err invalid_path
raw_ok (some decoded) seg = reject_if (has_prefix decoded ".") (invalid_segment seg)

-- the first loop; a segment that starts with a dot is every one that it rejects
abbrev check_raw : UrlLibrary → List String → Result UrlError (Unit {0})
check_raw lib [] = ok tt
check_raw lib (seg ∷ segs) = raw_ok (lib.path_unescape seg) seg >> check_raw lib segs

-- `decoded == "." || …`; a segment that is `.` or `..` starts with a dot
abbrev pub is_bad_part : String → Bool
is_bad_part decoded = has_prefix decoded "." || contains decoded "/" || contains decoded ".."

abbrev pub decoded_part : Option String → String → Result UrlError String
decoded_part none seg = err invalid_path
decoded_part (some decoded) seg =
    if is_bad_part decoded then err (invalid_segment seg) else ok decoded

abbrev pub prepend_part : String → Result UrlError (List String) → Result UrlError (List String)
prepend_part p (ok ps) = ok (p ∷ ps)
prepend_part p (err e) = err e

-- the second loop
unfoldable pub decode_parts : UrlLibrary → List String → Result UrlError (List String)
unfolding has_prefix contains
decode_parts lib [] = ok []
decode_parts lib (seg ∷ segs) =
    let rest = decode_parts lib segs in
    reject_if (has_prefix seg ".") (invalid_segment seg)
    >> (decoded_part (lib.path_unescape seg) seg >>= λ p. prepend_part p rest)

abbrev pub finish : String → String → String → String → Bool → String → Result UrlError Url
finish raw owner repo ref is_tree manifest_path =
    reject_if (manifest_path == "" || manifest_path == ".") no_manifest
    >> reject_if (not (has_suffix manifest_path ".json")) not_json
    >> reject_if (contains manifest_path ".." || contains manifest_path "//") ambiguous
    >> ok (record {
      raw = raw;
      owner = owner;
      repo = repo;
      ref = ref;
      path = "/" <> manifest_path;
      is_tree = is_tree;
    })

-- the owner, the repository, the view, the reference, and the other segments, of which there is one at least
abbrev pub from_parts : UrlLibrary → String → List String → Result UrlError Url
from_parts lib raw (owner ∷ repo ∷ view ∷ ref ∷ seg ∷ segs) =
    reject_if (owner == "" || repo == "" || view == "") missing_part
    >> reject_if (not (view == "blob") && not (view == "tree")) not_blob_or_tree
    >> reject_if (not (is_segment owner) || not (is_segment repo)) invalid_owner
    >> reject_if (contains owner ".." || contains repo "..") invalid_owner
    >> reject_if (ref == "") missing_ref
    >> (decode_parts lib (seg ∷ segs) >>= λ parts.
        finish raw owner repo ref (view == "tree") (lib.join parts))
from_parts lib raw _ = err no_view

abbrev pub from_parsed : UrlLibrary → String → Option ParsedUrl → Result UrlError Url
from_parsed lib raw none = err invalid_url
from_parsed lib raw (some u) =
    reject_if (not (u.scheme == "https")) not_https
    >> reject_if
        (not (lib.to_lower u.host == "github.com")
          && not (has_prefix (lib.to_lower u.host) "github.com:"))
        not_github
    >> reject_if u.has_user has_credentials
    >> reject_if (not (u.fragment == "")) has_fragment
    >> reject_if (not (u.raw_query == "")) has_query
    >> check_raw lib (split b'/' (trim_prefix u.escaped_path "/"))
    >> reject_if (lib.clean u.escaped_path == ".") empty_path
    >> from_parts lib raw (split b'/' (trim_prefix (lib.clean u.escaped_path) "/"))

-- ParseURL
unfoldable pub parse_url : UrlLibrary → String → Result UrlError Url
unfolding split trim_prefix decode_parts has_suffix
parse_url lib raw = from_parsed lib raw (lib.parse raw)
