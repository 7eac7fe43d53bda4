-- ===== src/Api/Sessions.antt =====
-- internal/api/auth.go: the handlers of sessions, and the guard in front of the other handlers. The state is
-- the limiter and the tables of the service. The texts of errors and the attributes of cookies are left out.
mod Calls
pub mod Guarded
mod Tests
use Prim.Native.String.{String}
use opendash.Prelude.{
  ℕ, Bool, true, false, ◌||◌, ◌&&◌, not, Option, none, some, List, [], ◌∷◌, Result, ok, err, ◌==◌,
  if◌then◌else◌, split, contains, has_prefix, trim_prefix, trim_space,
}
use opendash.Prelude.Bytes.{Bytes}
use opendash.Models.Time.{Time}
use opendash.Sql.{Conn}
use opendash.Auth.Password.{Crypto}
use opendash.Auth.Service.{
  AuthDb, AuthError, Session, admin_exists, invalid_credentials, invalid_input, unauthenticated,
  random_failed, database_failed, bootstrap_required, bootstrap, login, authenticate, logout,
}
use opendash.Api.Limiter.{Attempts, allow, reset}

pub record Server : Type 0 where
  pub conn : Conn AuthDb
  pub attempts : Attempts

-- credentials
pub record Credentials : Type 0 where
  pub username : String
  pub password : String

-- what the JSON decoder, which knows no other fields, makes of a body
pub data Body : Type 0 where
  malformed : Body
  one : Credentials → Body
  trailing : Credentials → Body

pub record Request : Type 0 where
  pub method : String
  pub remote_addr : String
  pub content_type : String
  pub csrf_header : String
  pub cookie : Option String
  pub body : Body

pub data Cookie : Type 0 where
  kept cleared : Cookie
  set : String → Time → Cookie

-- a status, the code of an error or the session shown, and the cookie
pub data Reply : Type 0 where
  refused : ℕ → String → Cookie → Reply
  shown : ℕ → Session → Cookie → Reply
  bootstrap_status : Bool → Bool → Reply
  no_content : Reply

-- the host of net.SplitHostPort
abbrev plain_host : List String → Option String
plain_host (host ∷ port ∷ []) =
    if contains host "[" || contains host "]" || contains port "[" || contains port "]"
    then none
    else some host
plain_host _ = none

abbrev bracket_rest : String → List String → Option String
bracket_rest host (before ∷ port ∷ []) =
    if before == "" && not (contains port "[") then some host else none
bracket_rest host _ = none

abbrev bracket_host : List String → Option String
bracket_host (host ∷ tail ∷ []) =
    if contains host "[" then none else bracket_rest host (split b':' tail)
bracket_host _ = none

abbrev split_host : String → Option String
split_host addr =
    if has_prefix addr "["
    then bracket_host (split b']' (trim_prefix addr "["))
    else plain_host (split b':' addr)

abbrev host_or : String → Option String → String
host_or addr none = addr
host_or addr (some host) = if host == "" then addr else host

-- clientIP
unfoldable pub client_ip : Request → String
unfolding split has_prefix trim_prefix contains
client_ip r = host_or r.remote_addr (split_host r.remote_addr)

abbrev pub first_part : List String → String
first_part [] = ""
first_part (p ∷ ps) = p

abbrev pub decoded : Body → Result Reply Credentials
decoded malformed = err (refused 400 "invalid_json" kept)
decoded (one c) = ok c
decoded (trailing c) = err (refused 400 "invalid_json" kept)

-- decodeJSON; `equal_fold` is strings.EqualFold
unfoldable pub decode_json : (String → String → Bool) → Request → Result Reply Credentials
unfolding split trim_space
decode_json equal_fold r =
    if not (equal_fold (trim_space (first_part (split b';' r.content_type))) "application/json")
    then err (refused 415 "unsupported_media_type" kept)
    else decoded r.body

abbrev pub Attempted : Type 0
Attempted = Result AuthError (String × Session) × Conn AuthDb

-- behind the call of the service; a success clears the attempts of the client
abbrev pub settled : (AuthError → Reply) → ℕ → String → Attempts → Attempted → Reply × Server
settled refuse status client attempts (err e, conn) =
    (refuse e, record { conn = conn; attempts = attempts })
settled refuse status client attempts (ok (token, session), conn) = (
  shown status session (set token session.expires_at),
  record { conn = conn; attempts = reset client attempts },
)

abbrev pub with_credentials :
    (AuthError → Reply)
    → ℕ
    → (Credentials → Conn AuthDb → Attempted)
    → String
    → Attempts
    → Conn AuthDb
    → Result Reply Credentials
    → Reply × Server
with_credentials refuse status call client attempts conn (err reply) =
    (reply, record { conn = conn; attempts = attempts })
with_credentials refuse status call client attempts conn (ok c) =
    settled refuse status client attempts (call c conn)

abbrev pub if_allowed :
    (AuthError → Reply)
    → ℕ
    → (Credentials → Conn AuthDb → Attempted)
    → Result Reply Credentials
    → String
    → Conn AuthDb
    → Attempts × Bool
    → Reply × Server
if_allowed refuse status call body client conn (attempts, false) =
    (refused 429 "rate_limited" kept, record { conn = conn; attempts = attempts })
if_allowed refuse status call body client conn (attempts, true) =
    with_credentials refuse status call client attempts conn body

abbrev bootstrap_refusal : AuthError → Reply
bootstrap_refusal invalid_input = refused 400 "invalid_credentials" kept
bootstrap_refusal admin_exists = refused 409 "already_bootstrapped" kept
bootstrap_refusal _ = refused 500 "auth_error" kept

abbrev pub login_refusal : AuthError → Reply
login_refusal invalid_credentials = refused 401 "invalid_credentials" kept
login_refusal _ = refused 500 "auth_error" kept

-- requiresCSRF
abbrev pub requires_csrf : String → Bool
requires_csrf method = not (method == "GET") && not (method == "HEAD") && not (method == "OPTIONS")

-- equalToken: whether the texts are equal, in a time that does not depend on where they differ
abbrev pub equal_token : String → String → Bool
equal_token provided expected = provided == expected

-- the refusal of the guard, or none where it calls the next handler
abbrev pub verdict : Request → Result AuthError Session → Option Reply
verdict r (err e) = some (refused 401 "unauthorized" cleared)
verdict r (ok session) =
    if requires_csrf r.method && not (equal_token r.csrf_header session.csrf_token)
    then some (refused 403 "csrf_invalid" kept)
    else none

abbrev pub logout_reply : Server → Result AuthError (Unit {0}) × Conn AuthDb → Reply × Server
logout_reply srv (err e, conn) = (refused 500 "auth_error" kept, record srv { conn = conn })
logout_reply srv (ok u, conn) = (no_content, record srv { conn = conn })

module _ (crypto : Crypto) (url_encode : Bytes → String) (lifetime : Time)
    (equal_fold : String → String → Bool) (enabled : Bool) where
  -- what Bootstrap and Login have in common
  unfoldable pub attempt_handler :
      (AuthError → Reply)
      → ℕ
      → (Credentials → Conn AuthDb → Attempted)
      → Time
      → Request
      → Server
      → Reply × Server
  unfolding decode_json client_ip allow reset
  attempt_handler refuse status call now r srv =
      let client = client_ip r in
      if not enabled
      then (refused 404 "not_found" kept, srv)
      else if_allowed refuse status call (decode_json equal_fold r) client srv.conn
          (allow now client srv.attempts)

  -- Bootstrap
  unfoldable pub bootstrap_handler :
      Time → Option Bytes → Option Bytes → Option Bytes → Request → Server → Reply × Server
  unfolding attempt_handler
  bootstrap_handler now salt token_bytes csrf_bytes r srv =
      attempt_handler bootstrap_refusal 201
        (λ (c : Credentials).
          bootstrap crypto url_encode lifetime now salt token_bytes csrf_bytes c.username
            c.password)
        now r srv

  -- Login
  unfoldable pub login_handler :
      String → Time → Option Bytes → Option Bytes → Request → Server → Reply × Server
  unfolding attempt_handler
  login_handler dummy now token_bytes csrf_bytes r srv =
      attempt_handler login_refusal 200
        (λ (c : Credentials).
          login crypto url_encode lifetime dummy now token_bytes csrf_bytes c.username c.password)
        now r srv

  -- currentSession; a request without the cookie has no session
  unfoldable pub current_session :
      Time → Option String → Conn AuthDb → Result AuthError Session × Conn AuthDb
  current_session now none conn = (err unauthenticated, conn)
  current_session now (some token) conn = authenticate crypto url_encode lifetime now token conn

  abbrev session_reply : Result AuthError Session → Reply
  session_reply (err e) = refused 401 "unauthorized" cleared
  session_reply (ok session) = shown 200 session kept

  -- Session
  unfoldable pub session_handler : Time → Request → Server → Reply × Server
  unfolding current_session
  session_handler now r srv =
      let (result, conn) = current_session now r.cookie srv.conn in
      if not enabled
      then (refused 404 "not_found" kept, srv)
      else (session_reply result, record srv { conn = conn })

  abbrev logout_cookie : Option String → Server → Reply × Server
  logout_cookie none srv = (no_content, srv)
  logout_cookie (some token) srv =
      logout_reply srv (logout crypto url_encode lifetime token srv.conn)

  -- Logout
  unfoldable pub logout_handler : Request → Server → Reply × Server
  logout_handler r srv =
      if not enabled then (refused 404 "not_found" kept, srv) else logout_cookie r.cookie srv

  abbrev status_reply : Result AuthError Bool → Reply
  status_reply (err e) = refused 500 "store_error" kept
  status_reply (ok required) = bootstrap_status true required

  -- BootstrapStatus
  unfoldable pub bootstrap_status_handler : Server → Reply × Server
  bootstrap_status_handler srv =
      let (result, conn) = bootstrap_required crypto url_encode lifetime srv.conn in
      if not enabled
      then (bootstrap_status false false, srv)
      else (status_reply result, record srv { conn = conn })

  -- requireAuth
  unfoldable pub require_auth : Time → Request → Server → Option Reply × Server
  unfolding current_session
  require_auth now r srv =
      let (result, conn) = current_session now r.cookie srv.conn in
      if not enabled then (none, srv) else (verdict r result, record srv { conn = conn })
