-- ===== src/Github/Url/Safe.antt =====
-- Which URLs are accepted.
use Prim.Native.String.{◌++◌ as ◌<>◌}
use opendash.Prelude.{
  ◌≡◌, refl, ap, subst, String, Bool, true, false, ◌||◌, ◌&&◌, not, Option, none, some, List, [],
  ◌∷◌, Result, ok, err, ◌==◌, has_prefix, contains, split, trim_prefix, All, reject_if, ◌>>=◌, ◌>>◌,
  arith, Bool-cases, inl, inr,
}
use opendash.Github.Url.{
  ParsedUrl, UrlLibrary, Url, UrlError, is_segment, has_suffix, is_bad_part, decoded_part,
  prepend_part, decode_parts, finish, from_parts, from_parsed, parse_url,
}

-- A guard that was passed.
reject-inv : (b : Bool) (e : UrlError) → reject_if b e ≡ ok tt → b ≡ false
reject-inv true e h = cc
reject-inv false e h = refl

then-inv :
    {A : Type 0} (r : Result UrlError (Unit {0})) (next : Result UrlError A) (a : A)
    → (r >> next) ≡ ok a
    → (r ≡ ok tt) × (next ≡ ok a)
then-inv (err e) next a h = cc
then-inv (ok u) next a h = (refl, h)

ok-injective : {A : Type 0} {a b : A} → ◌≡◌ {A = Result UrlError A} (ok a) (ok b) → a ≡ b
ok-injective {A} {a} h = ap (λ (r : Result UrlError A). elim r [ ok x ↦ x | err e ↦ a ]) h

bind-inv :
    {A B : Type 0} (r : Result UrlError A) (f : A → Result UrlError B) (b : B)
    → (r >>= f) ≡ ok b
    → (a : A) × (r ≡ ok a) × (f a ≡ ok b)
bind-inv (err e) f b h = cc
bind-inv (ok a) f b h = (a, refl, h)

-- A segment of the path of a manifest: not hidden, and no step up or down.
abbrev pub IsPart : String → Type 0
IsPart p = (has_prefix p "." ≡ false) × (contains p "/" ≡ false) × (contains p ".." ≡ false)

-- The path of the manifest is that of such segments, and names a JSON file.
abbrev pub IsManifestPath : UrlLibrary → String → Type 0
IsManifestPath lib path =
    (parts : List String) × All IsPart parts
    × (path ≡ "/" <> lib.join parts)
    × (has_suffix (lib.join parts) ".json" ≡ true)
    × (contains (lib.join parts) ".." ≡ false)
    × (contains (lib.join parts) "//" ≡ false)

abbrev pub IsName : String → Type 0
IsName s = (is_segment s ≡ true) × (contains s ".." ≡ false)

abbrev pub IsSafe : UrlLibrary → Url → Type 0
IsSafe lib u = IsName u.owner × IsName u.repo × (u.ref == "" ≡ false) × IsManifestPath lib u.path

decoded_part-IsPart : (o : Option String) (seg p : String) → decoded_part o seg ≡ ok p → IsPart p
decoded_part-IsPart none seg p h = cc
decoded_part-IsPart (some d) seg p h = elim (Bool-cases (is_bad_part d)) [
  | inl e ↦ absurd (let impossible = rw e at h in cc)
  | inr e ↦ subst IsPart (ok-injective (rw e at h)) (ground arith, ground arith, ground arith)
]

prepend-inv :
    (p : String) (r : Result UrlError (List String)) (parts : List String)
    → prepend_part p r ≡ ok parts
    → (rest : List String) × (r ≡ ok rest) × (p ∷ rest ≡ parts)
prepend-inv p (err e) parts h = cc
prepend-inv p (ok rest) parts h = (rest, refl, ok-injective h)

decode-parts :
    (lib : UrlLibrary) (segs parts : List String)
    → decode_parts lib segs ≡ ok parts
    → All IsPart parts
unfolding decode_parts
decode-parts lib [] parts h = subst (All IsPart) (ok-injective h) tt
decode-parts lib (seg ∷ segs) parts h =
    let (shown, h1) = then-inv _ _ parts h in
    let (p, d, h2) = bind-inv (decoded_part (lib.path_unescape seg) seg) _ parts h1 in
    let (rest, r, same) = prepend-inv p (decode_parts lib segs) parts h2 in
    subst (All IsPart) same
      (decoded_part-IsPart (lib.path_unescape seg) seg p d, decode-parts lib segs rest r)

finish-inv :
    (raw owner repo ref : String) (is_tree : Bool) (path : String) (u : Url)
    → finish raw owner repo ref is_tree path ≡ ok u
    → (has_suffix path ".json" ≡ true)
      × (contains path ".." ≡ false)
      × (contains path "//" ≡ false)
      × (record {
        raw = raw;
        owner = owner;
        repo = repo;
        ref = ref;
        path = "/" <> path;
        is_tree = is_tree;
      }
          ≡ u)
finish-inv raw owner repo ref is_tree path u h =
    let (h1, same) = then-inv _ _ u h in
    let (h2, clear) = then-inv _ _ tt h1 in
    let (h3, json) = then-inv _ _ tt h2 in
    let json' = reject-inv _ _ json in
    let clear' = reject-inv (contains path ".." || contains path "//") _ clear in
    (ground arith, ground arith, ground arith, ok-injective same)

parts-IsSafe :
    (lib : UrlLibrary) (raw : String) (segs : List String) (u : Url)
    → from_parts lib raw segs ≡ ok u
    → IsSafe lib u
parts-IsSafe lib raw [] u h = cc
parts-IsSafe lib raw (owner ∷ []) u h = cc
parts-IsSafe lib raw (owner ∷ repo ∷ []) u h = cc
parts-IsSafe lib raw (owner ∷ repo ∷ view ∷ []) u h = cc
parts-IsSafe lib raw (owner ∷ repo ∷ view ∷ ref ∷ []) u h = cc
parts-IsSafe lib raw (owner ∷ repo ∷ view ∷ ref ∷ seg ∷ segs) u h =
    let (h1, body) = then-inv _ _ u h in
    let (h2, has_ref) = then-inv _ _ tt h1 in
    let (h3, dots) = then-inv _ _ tt h2 in
    let (h4, names) = then-inv _ _ tt h3 in
    let ref' = reject-inv (ref == "") _ has_ref in
    let dots' = reject-inv (contains owner ".." || contains repo "..") _ dots in
    let names' = reject-inv (not (is_segment owner) || not (is_segment repo)) _ names in
    let (parts, d, f) = bind-inv (decode_parts lib (seg ∷ segs)) _ u body in
    let (json, clear, single, same) =
      finish-inv raw owner repo ref (view == "tree") (lib.join parts) u f in
    subst (IsSafe lib) same (
      (ground arith, ground arith),
      (ground arith, ground arith),
      ref',
      (parts, decode-parts lib (seg ∷ segs) parts d, refl, json, clear, single),
    )

-- What the guards on the whole URL say.
abbrev pub IsGithub : UrlLibrary → ParsedUrl → Type 0
IsGithub lib p =
    (p.scheme == "https" ≡ true)
    × (p.has_user ≡ false)
    × (p.fragment == "" ≡ true)
    × (p.raw_query == "" ≡ true)
    × ((lib.to_lower p.host == "github.com" || has_prefix (lib.to_lower p.host) "github.com:")
        ≡ true)

parsed-inv :
    (lib : UrlLibrary) (raw : String) (p : ParsedUrl) (u : Url)
    → from_parsed lib raw (some p) ≡ ok u
    → IsGithub lib p × IsSafe lib u
parsed-inv lib raw p u h =
    let (h1, body) = then-inv _ _ u h in
    let (h2, path) = then-inv _ _ tt h1 in
    let (h3, segments) = then-inv _ _ tt h2 in
    let (h4, query) = then-inv _ _ tt h3 in
    let (h5, fragment) = then-inv _ _ tt h4 in
    let (h6, user) = then-inv _ _ tt h5 in
    let (scheme, host) = then-inv _ _ tt h6 in
    let scheme' = reject-inv (not (p.scheme == "https")) _ scheme in
    let host' =
      reject-inv
        (not (lib.to_lower p.host == "github.com")
          && not (has_prefix (lib.to_lower p.host) "github.com:"))
        _ host in
    let fragment' = reject-inv (not (p.fragment == "")) _ fragment in
    let query' = reject-inv (not (p.raw_query == "")) _ query in
    (
      (ground arith, reject-inv p.has_user _ user, ground arith, ground arith, ground arith),
      parts-IsSafe lib raw (split b'/' (trim_prefix (lib.clean p.escaped_path) "/")) u body,
    )

-- A URL that is accepted is an https URL of github.com, with no credentials, fragment or query. Its owner and repository are names
-- without two dots in a row, and its reference is not empty. The path of its manifest is that of segments of which none
-- is hidden or has a slash or two dots in a row in it once it is decoded, it ends in .json, and has neither two dots nor two slashes in a row.
pub parse_url-IsSafe :
    (lib : UrlLibrary) (raw : String) (u : Url)
    → parse_url lib raw ≡ ok u
    → (p : ParsedUrl) × (lib.parse raw ≡ some p) × IsGithub lib p × IsSafe lib u
unfolding parse_url
parse_url-IsSafe lib raw u = go (lib.parse raw)
  where
    go :
        (o : Option ParsedUrl)
        → from_parsed lib raw o ≡ ok u
        → (p : ParsedUrl) × (o ≡ some p) × IsGithub lib p × IsSafe lib u
    go none h = cc
    go (some p) h = (let (github, safe) = parsed-inv lib raw p u h in (p, refl, github, safe))
