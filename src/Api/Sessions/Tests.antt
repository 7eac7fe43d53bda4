-- ===== src/Api/Sessions/Tests.antt =====
-- The theorems on the guard at a concrete administrator.
use opendash.Prelude.{
  ◌≡◌, refl, String, Bool, true, none, some, [], ◌==◌, trim_space, exists, find_first, keep,
}
use opendash.Prelude.Bytes.{bytes_eq}
use opendash.Prelude.Maps.{get, text_key}
use opendash.Models.Time.{unix}
use opendash.Sql.{◌>>=◌, transaction}
use opendash.Auth.Password.{verify_password}
use opendash.Auth.Service.{
  Session, login, authenticate, logout, select_session, delete_sessions, insert_session,
}
use opendash.Auth.Service.Started.{answer}
use opendash.Auth.Tests.{
  zeros, toy, url_encode, day, noon, hash, tables, session, tables-IsConsistent, t_nonempty,
}
use opendash.Api.Sessions.{
  Server, Request, kept, one, set, cleared, refused, shown, no_content, client_ip, login_handler,
  logout_handler, require_auth,
}
use opendash.Api.Sessions.Guarded.{
  quieted, login_handler-require_auth, logout_handler-require_auth, IsStored, IsAllowed, guarded,
  require_auth-IsStored,
}

abbrev plain : String → String → Bool
plain a b = a == b

abbrev server : Server
server = record { conn = record { db = tables; faults = [] }; attempts = [] }

abbrev request : Request
request = record {
  method = "POST";
  remote_addr = "10.0.0.1:5000";
  content_type = "application/json; charset=utf-8";
  csrf_header = "c";
  cookie = some "t";
  body = one (record { username = "admin"; password = "correct horse" });
}

ip_runs : client_ip request ≡ "10.0.0.1"
unfolding client_ip
ip_runs = refl

logged_in :
    (login_handler toy url_encode day plain true hash noon
      (some (zeros 1))
      (some (zeros 2))
      request
      server).0
    ≡ shown 200 session (set "t" session.expires_at)
unfolding login_handler login ◌>>=◌ transaction verify_password delete_sessions insert_session
    trim_space get exists find_first keep bytes_eq
logged_in = refl

login_handler-require_auth_example :
    (require_auth toy url_encode day plain true noon request (
      quieted
        (login_handler toy url_encode day plain true hash noon
          (some (zeros 1))
          (some (zeros 2))
          request
          server).1)).0
    ≡ guarded request (answer toy url_encode day noon "t" session noon "t")
login_handler-require_auth_example =
    login_handler-require_auth toy url_encode day plain hash noon (some (zeros 1)) (some (zeros 2))
      request request server session "t" "t" session.expires_at noon tables-IsConsistent logged_in
      refl t_nonempty

logged_out : (logout_handler toy url_encode day plain true request server).0 ≡ no_content
unfolding logout_handler logout ◌>>=◌ delete_sessions
logged_out = refl

logout_handler-require_auth_example :
    (require_auth toy url_encode day plain true noon request
      (quieted (logout_handler toy url_encode day plain true request server).1)).0
    ≡ some (refused 401 "unauthorized" cleared)
logout_handler-require_auth_example =
    logout_handler-require_auth toy url_encode day plain request request server "t" noon refl refl
      t_nonempty logged_out

let_through : (require_auth toy url_encode day plain true noon request server).0 ≡ none
unfolding require_auth authenticate ◌>>=◌ select_session bytes_eq find_first
let_through = refl

require_auth-IsStored_example :
    (s : Session) × (token : String) × (some "t" ≡ some token)
    × IsStored (toy.sha256 token) (unix noon) tables s
    × IsAllowed request s
require_auth-IsStored_example =
    require_auth-IsStored toy url_encode day plain noon request server let_through

-- A change without the token.
refused_runs :
    (require_auth toy url_encode day plain true noon (record request { csrf_header = "" }) server).0
    ≡ some (refused 403 "csrf_invalid" kept)
unfolding require_auth authenticate ◌>>=◌ select_session bytes_eq find_first
refused_runs = refl
