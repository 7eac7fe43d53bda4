-- ===== src/Github/Url/Tests.antt =====
-- ParseURL at a concrete URL.
use opendash.Prelude.{
  ◌≡◌, refl, String, false, none, some, [], ◌∷◌, ok, err, ◌==◌, if◌then◌else◌, has_prefix, contains,
}
use opendash.Github.Url.{ParsedUrl, UrlLibrary, Url, invalid_segment, parse_url, decode_parts}
use opendash.Github.Url.Safe.{IsGithub, IsSafe, parse_url-IsSafe}

abbrev pub raw : String
raw = "https://github.com/o/r/blob/main/apps/web.json"

abbrev parsed : ParsedUrl
parsed = record {
  scheme = "https";
  host = "github.com";
  has_user = false;
  fragment = "";
  raw_query = "";
  escaped_path = "/o/r/blob/main/apps/web.json";
}

-- a library that knows one URL, and one escaped segment
abbrev pub url_library : UrlLibrary
url_library = record {
  parse = λ s. if s == raw then some parsed else none;
  path_unescape = λ s. some (if s == "%2e%2e" then ".." else s);
  clean = λ s. s;
  join = λ parts. "apps/web.json";
  to_lower = λ s. s;
}

abbrev url : Url
url = record {
  raw = raw;
  owner = "o";
  repo = "r";
  ref = "main";
  path = "/apps/web.json";
  is_tree = false;
}

url_runs : parse_url url_library raw ≡ ok url
unfolding parse_url has_prefix contains
url_runs = refl

escaped_runs :
    decode_parts url_library ("%2e%2e" ∷ "web.json" ∷ []) ≡ err (invalid_segment "%2e%2e")
unfolding decode_parts
escaped_runs = refl

parse_url-IsSafe_example :
    (p : ParsedUrl) × (some parsed ≡ some p) × IsGithub url_library p × IsSafe url_library url
parse_url-IsSafe_example = parse_url-IsSafe url_library raw url url_runs
