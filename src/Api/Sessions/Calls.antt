-- ===== src/Api/Sessions/Calls.antt =====
-- Which calls of the service stand behind a reply that shows a session.
use opendash.Prelude.{
  ◌≡◌, ◌≢◌, refl, ap, ℕ, String, Bool, true, false, Option, Result, ok, err, Bool-cases, inl, inr,
  trim_space, split,
}
use opendash.Prelude.Bytes.{Bytes}
use opendash.Models.Time.{Time}
use opendash.Sql.{Conn}
use opendash.Auth.Password.{Crypto}
use opendash.Auth.Service.{
  AuthDb, AuthError, Session, unauthenticated, admin_exists, invalid_credentials, invalid_input,
  random_failed, database_failed, login,
}
use opendash.Api.Limiter.{Attempts, allow}
use opendash.Api.Sessions.{
  Server, Credentials, Request, Cookie, kept, cleared, set, Reply, refused, shown, bootstrap_status,
  no_content, client_ip, Body, malformed, one, trailing, decoded, first_part, decode_json,
  Attempted, settled, with_credentials, if_allowed, login_refusal, login_handler,
}

-- A reply that shows a session comes from a call of the service that returned it.
abbrev pub IsCall :
    (Credentials → Conn AuthDb → Attempted) → Conn AuthDb → Session → String → Server → Type 0
IsCall call conn s token srv =
    (c : Credentials) × ((call c conn).0 ≡ ok (token, s)) × (srv.conn ≡ (call c conn).1)

-- the token and the session of a reply
abbrev granted : String × Session → Reply → String × Session
granted d (refused n code k) = d
granted d (shown n s kept) = d
granted d (shown n s cleared) = d
granted d (shown n s (set token e)) = (token, s)
granted d (bootstrap_status a b) = d
granted d no_content = d

module _ (refuse : AuthError → Reply) (status : ℕ)
    (no_session : (e : AuthError) (n : ℕ) (s : Session) (k : Cookie) → refuse e ≢ shown n s k)
    (call : Credentials → Conn AuthDb → Attempted) (client : String) (conn : Conn AuthDb)
    (s : Session) (token : String) (expires : Time) where
  settled-IsCall :
      (attempts : Attempts) (c : Credentials) (z : Attempted)
      → (call c conn) ≡ z
      → (settled refuse status client attempts z).0 ≡ shown status s (set token expires)
      → IsCall call conn s token (settled refuse status client attempts z).1
  settled-IsCall attempts c (err e, conn') q h =
      absurd (no_session e status s (set token expires) h)
  settled-IsCall attempts c (ok (token', s'), conn') q h = (
    c,
    rw q (ap (λ (p : String × Session). ok p) (ap (λ (reply : Reply). granted (token, s) reply) h)),
    rw q refl,
  )

  credentials-IsCall :
      (attempts : Attempts) (body : Result Reply Credentials)
      → ((reply : Reply) → body ≡ err reply → reply ≢ shown status s (set token expires))
      → (with_credentials refuse status call client attempts conn body).0
        ≡ shown status s (set token expires)
      → IsCall call conn s token (with_credentials refuse status call client attempts conn body).1
  credentials-IsCall attempts (err reply) k h = absurd (k reply refl h)
  credentials-IsCall attempts (ok c) k h = settled-IsCall attempts c (call c conn) refl h

  allowed-IsCall :
      (body : Result Reply Credentials) (a : Attempts × Bool)
      → ((reply : Reply) → body ≡ err reply → reply ≢ shown status s (set token expires))
      → (if_allowed refuse status call body client conn a).0 ≡ shown status s (set token expires)
      → IsCall call conn s token (if_allowed refuse status call body client conn a).1
  allowed-IsCall body (attempts, false) k h = cc
  allowed-IsCall body (attempts, true) k h = credentials-IsCall attempts body k h

refused_body :
    (b : Body) (reply : Reply) (n : ℕ) (s : Session) (k : Cookie)
    → decoded b ≡ err reply
    → reply ≢ shown n s k
refused_body malformed reply n s k h q = cc
refused_body (one c) reply n s k h q = cc
refused_body (trailing c) reply n s k h q = cc

decode-refused :
    (equal_fold : String → String → Bool) (r : Request) (reply : Reply) (n : ℕ) (s : Session)
    (k : Cookie)
    → decode_json equal_fold r ≡ err reply
    → reply ≢ shown n s k
unfolding decode_json
decode-refused equal_fold r reply n s k h =
    elim (Bool-cases
      (equal_fold (trim_space (first_part (split b';' r.content_type))) "application/json")) [
        | inl e ↦ refused_body r.body reply n s k (rw e at h)
        | inr e ↦ (λ q. (let h' = rw e at h in cc))
      ]

login_refusal-shown :
    (e : AuthError) (n : ℕ) (s : Session) (k : Cookie) → login_refusal e ≢ shown n s k
login_refusal-shown admin_exists n s k q = cc
login_refusal-shown invalid_credentials n s k q = cc
login_refusal-shown invalid_input n s k q = cc
login_refusal-shown unauthenticated n s k q = cc
login_refusal-shown random_failed n s k q = cc
login_refusal-shown database_failed n s k q = cc

module _ (crypto : Crypto) (url_encode : Bytes → String) (lifetime : Time)
    (equal_fold : String → String → Bool) where
  pub login_handler-IsCall :
      (dummy : String) (now : Time) (token_bytes csrf_bytes : Option Bytes) (r : Request)
      (srv : Server) (s : Session) (token : String) (expires : Time)
      → (login_handler crypto url_encode lifetime equal_fold true dummy now token_bytes csrf_bytes r
          srv).0
        ≡ shown 200 s (set token expires)
      → IsCall
          (λ (c : Credentials).
            login crypto url_encode lifetime dummy now token_bytes csrf_bytes c.username c.password)
          srv.conn
          s
          token
          (login_handler crypto url_encode lifetime equal_fold true dummy now token_bytes csrf_bytes
            r srv).1
  unfolding login_handler
  login_handler-IsCall dummy now token_bytes csrf_bytes r srv s token expires h =
      allowed-IsCall login_refusal 200 login_refusal-shown
        (λ (c : Credentials).
          login crypto url_encode lifetime dummy now token_bytes csrf_bytes c.username c.password)
        (client_ip r) srv.conn s token expires (decode_json equal_fold r)
        (allow now (client_ip r) srv.attempts)
        (λ reply. decode-refused equal_fold r reply 200 s (set token expires)) h
