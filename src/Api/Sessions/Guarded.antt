-- ===== src/Api/Sessions/Guarded.antt =====
-- Which requests the guard lets through.
use opendash.Prelude.{
  ◌≡◌, ◌≢◌, ◌⊎◌, ◌<◌, ltb, nat_eq, eq_iff, ◌∙◌, List, ◌∷◌, ◌++◌, find_first, find_first-inv,
  if◌then◌else◌, refl, ap, sym, ℕ, String, Bool, true, ◌&&◌, ◌||◌, Option, none, some, [], Result,
  ok, err, ◌==◌, arith, Bool-cases, inl, inr,
}
use mathlib.Core.Option.{some-injective}
use opendash.Prelude.Bytes.{Bytes, bytes_eq, bytes_eq_iff}
use opendash.Models.Time.{Time, unix, from_unix}
use opendash.Sql.{Conn}
use opendash.Sql.Triple.{
  Triple, Triple-pure, Triple-raise, Triple-stmt, Triple-bind, Triple-try, Triple-ok,
}
use opendash.Auth.Password.{Crypto}
use opendash.Auth.Service.{
  AuthDb, AuthError, Session, unauthenticated, authenticate, logout, select_session,
  delete_sessions, or_expire, SessionRow, AdminRow, admin_of, join_admin,
}
use opendash.Auth.Service.Consistent.{IsConsistent}
use opendash.Auth.Service.Started.{login-authenticate, answer}
use opendash.Auth.Service.Ended.{logout-authenticate}
use opendash.Api.Sessions.{
  Reply, Server, Request, kept, cleared, set, refused, shown, no_content, login_handler,
  logout_reply, logout_handler, require_auth, current_session, verdict,
}
use opendash.Api.Sessions.Calls.{login_handler-IsCall}

-- The same tables, on a driver that does not fail.
abbrev pub quieted : Server → Server
quieted srv = record srv { conn = record { db = srv.conn.db; faults = [] } }

abbrev pub HasRow : {A : Type 0} → A → List A → Type 0
HasRow {A} row rows = (before : List A) × (rest : List A) × (rows ≡ before ++ (row ∷ rest))

-- The reply of the guard to a request with this session, or without one.
abbrev pub guarded : Request → Result AuthError Session → Option Reply
guarded r (err e) = some (refused 401 "unauthorized" cleared)
guarded r (ok s) =
    if r.method == "GET"
      || r.method == "HEAD"
      || r.method == "OPTIONS"
      || r.csrf_header == s.csrf_token
    then none
    else some (refused 403 "csrf_invalid" kept)

verdict-guarded :
    (r : Request) (result : Result AuthError Session) → verdict r result ≡ guarded r result
verdict-guarded r (err e) = refl
verdict-guarded r (ok s) = ground arith

-- A row of a session with the digest of the token, which has not expired, and a row of its administrator, give the session.
abbrev pub IsStored : Bytes → ℕ → AuthDb → Session → Type 0
IsStored digest now d s =
    (row : SessionRow) × (admin : AdminRow) × HasRow row d.sessions
    × HasRow admin d.admins
    × (row.token_hash ≡ digest)
    × (now < row.expires_at)
    × (admin.id ≡ row.admin_id)
    × (s ≡ record {
      username = admin.username;
      csrf_token = row.csrf_token;
      expires_at = from_unix row.expires_at;
    })

select-IsStored :
    (digest : Bytes) (now : ℕ) (d : AuthDb) {s : Session}
    → select_session digest now d ≡ some s
    → IsStored digest now d s
unfolding select_session
select-IsStored digest now d {s} h =
    rows
      (find_first (λ (r : SessionRow). bytes_eq r.token_hash digest && ltb now r.expires_at)
        d.sessions)
      refl h
  where
    joined :
        (row : SessionRow) (o : Option AdminRow)
        → HasRow row d.sessions
        → (bytes_eq row.token_hash digest && ltb now row.expires_at) ≡ true
        → find_first (λ (a : AdminRow). nat_eq a.id row.admin_id) d.admins ≡ o
        → admin_of row o ≡ some s
        → IsStored digest now d s
    joined row none there t q h = cc
    joined row (some a) there t q h =
        let (before, rest, e, same) = find_first-inv _ d.admins q in
        (
          row,
          a,
          there,
          (before, rest, e),
          (bytes_eq_iff row.token_hash digest).0 (ground (arith, t)),
          ground (arith, t),
          ground (arith, same),
          sym (some-injective _ _ h),
        )

    rows :
        (o : Option SessionRow)
        → find_first
            (λ (r : SessionRow). bytes_eq r.token_hash digest && ltb now r.expires_at)
            d.sessions
          ≡ o
        → join_admin d o ≡ some s
        → IsStored digest now d s
    rows none q h = cc
    rows (some row) q h =
        let (before, rest, e, t) = find_first-inv _ d.sessions q in
        joined row _ (before, rest, e) t refl h

-- The request may not change anything, or has the CSRF token of the session.
abbrev pub IsAllowed : Request → Session → Type 0
IsAllowed r s =
    (r.method ≡ "GET")
    ⊎ ((r.method ≡ "HEAD") ⊎ ((r.method ≡ "OPTIONS") ⊎ (r.csrf_header ≡ s.csrf_token)))

logout-inv :
    (srv : Server) (z : Result AuthError (Unit {0}) × Conn AuthDb)
    → (logout_reply srv z).0 ≡ no_content
    → (z.0 ≡ ok tt) × ((logout_reply srv z).1.conn ≡ z.1)
logout-inv srv (err e, conn) h = cc
logout-inv srv (ok u, conn) h = (refl, refl)

module _ (crypto : Crypto) (url_encode : Bytes → String) (lifetime : Time)
    (equal_fold : String → String → Bool) where
  -- A login was answered with a session and its cookie, from consistent tables and whatever the driver did. A later request with a
  -- cookie that is not empty is then, while the driver does not fail, let through by the guard exactly as that session says: it is let through
  -- where the cookie has the digest of the one that was set, the session has not expired, and the request is safe or has the
  -- session's CSRF token; it is answered 401 without such a cookie, and 403 without the token.
  pub login_handler-require_auth :
      (dummy : String) (now : Time) (token_bytes csrf_bytes : Option Bytes) (r r' : Request)
      (srv : Server) (s : Session) (token t : String) (expires later : Time)
      → IsConsistent srv.conn.db
      → (login_handler crypto url_encode lifetime equal_fold true dummy now token_bytes csrf_bytes r
          srv).0
        ≡ shown 200 s (set token expires)
      → r'.cookie ≡ some t
      → t ≢ ""
      → (require_auth crypto url_encode lifetime equal_fold true later r' (
          quieted
            (login_handler crypto url_encode lifetime equal_fold true dummy now token_bytes
              csrf_bytes r srv).1)).0
        ≡ guarded r' (answer crypto url_encode lifetime now token s later t)
  unfolding require_auth
  login_handler-require_auth dummy now token_bytes csrf_bytes r r' srv s token t expires later fine
        h has_cookie ne =
      let (c, e, left) =
        login_handler-IsCall crypto url_encode lifetime equal_fold dummy now token_bytes csrf_bytes
          r srv s token expires h in
      rw (has_cookie, left)
        (ap (verdict r') (
            login-authenticate crypto url_encode lifetime now dummy token_bytes csrf_bytes
              c.username c.password srv.conn later t fine e ne)
          ∙ verdict-guarded r' (answer crypto url_encode lifetime now token s later t))

  -- When a logout with a cookie that is not empty was answered with success, every later request with the same cookie is answered 401, while the
  -- driver does not fail.
  pub logout_handler-require_auth :
      (r r' : Request) (srv : Server) (t : String) (later : Time)
      → r.cookie ≡ some t
      → r'.cookie ≡ some t
      → t ≢ ""
      → (logout_handler crypto url_encode lifetime equal_fold true r srv).0 ≡ no_content
      → (require_auth crypto url_encode lifetime equal_fold true later r'
          (quieted (logout_handler crypto url_encode lifetime equal_fold true r srv).1)).0
        ≡ some (refused 401 "unauthorized" cleared)
  unfolding require_auth logout_handler
  logout_handler-require_auth r r' srv t later c c' ne h =
      let z = logout crypto url_encode lifetime t srv.conn in
      let (done, left) = logout-inv srv z (rw c at h) in
      let same : bytes_eq (crypto.sha256 t) (crypto.sha256 t) ≡ true =
        (bytes_eq_iff (crypto.sha256 t) (crypto.sha256 t)).1 refl in
      let gone : (authenticate crypto url_encode lifetime later t
            (record { db = z.1.db; faults = [] })).0
          ≡ err unauthenticated =
        rw (logout-authenticate crypto url_encode lifetime t srv.conn later t ne done ne, same)
          refl in
      rw (c, c', left, gone) refl

  or_expire-Triple :
      (now : ℕ) (o a : Option Session)
      → Triple
          (λ (d : AuthDb). o ≡ a)
          (or_expire crypto url_encode lifetime now o)
          (λ s _. a ≡ some s)
          (λ _ _. Unit {0})
  unfolding delete_sessions
  or_expire-Triple now none a =
      Triple-bind {Q = λ _ _. Unit {0}} (Triple-try (Triple-stmt _ _ (λ d p. tt) (λ d p. tt)))
        λ u. Triple-raise unauthenticated (λ d p. tt)
  or_expire-Triple now (some s) a = Triple-pure s (λ d p. sym p)

  authenticate-Triple :
      (now : Time) (token : String) (d0 : AuthDb)
      → Triple
          (λ d. d ≡ d0)
          (authenticate crypto url_encode lifetime now token)
          (λ s _. select_session (crypto.sha256 token) (unix now) d0 ≡ some s)
          (λ _ _. Unit {0})
  unfolding authenticate
  authenticate-Triple now token d0 = elim (Bool-cases (token == "")) [
    | inl e ↦ rw e (Triple-raise unauthenticated (λ d h. tt))
    | inr e ↦ rw e (
        Triple-bind {Q = λ o _. o ≡ select_session (crypto.sha256 token) (unix now) d0}
          (Triple-stmt _ _ (λ d h. rw h refl) (λ d h. tt))
          λ o. or_expire-Triple (unix now) o (select_session (crypto.sha256 token) (unix now) d0))
  ]

  session-inv :
      (now : Time) (cookie : Option String) (conn : Conn AuthDb) (s : Session)
      → (current_session crypto url_encode lifetime equal_fold true now cookie conn).0 ≡ ok s
      → (token : String) × (cookie ≡ some token)
        × (select_session (crypto.sha256 token) (unix now) conn.db ≡ some s)
  unfolding current_session
  session-inv now none conn s h = cc
  session-inv now (some token) conn s h =
      (token, refl, Triple-ok (authenticate-Triple now token conn.db) conn refl h)

  guarded-inv :
      (r : Request) (result : Result AuthError Session)
      → guarded r result ≡ none
      → (s : Session) × (result ≡ ok s) × IsAllowed r s
  guarded-inv r (err e) h = cc
  guarded-inv r (ok s) h =
      elim (Bool-cases (
        r.method == "GET"
        || r.method == "HEAD"
        || r.method == "OPTIONS"
        || r.csrf_header == s.csrf_token)) [
          | inl e ↦ (s, refl, allowed e)
          | inr e ↦ absurd (let impossible = rw e at h in cc)
        ]
    where
      allowed :
          (r.method == "GET"
              || r.method == "HEAD"
              || r.method == "OPTIONS"
              || r.csrf_header == s.csrf_token)
            ≡ true
          → IsAllowed r s
      allowed e = ground (
        arith,
        eq_iff r.method "GET",
        eq_iff r.method "HEAD",
        eq_iff r.method "OPTIONS",
        eq_iff r.csrf_header s.csrf_token,
      )

  -- Whatever the driver does, a request that the guard lets through has a cookie whose digest a row of a session has that has not
  -- expired, with its administrator; and its method is GET, HEAD or OPTIONS, or it has the CSRF token of that session.
  pub require_auth-IsStored :
      (now : Time) (r : Request) (srv : Server)
      → (require_auth crypto url_encode lifetime equal_fold true now r srv).0 ≡ none
      → (s : Session) × (token : String) × (r.cookie ≡ some token)
        × IsStored (crypto.sha256 token) (unix now) srv.conn.db s
        × IsAllowed r s
  unfolding require_auth
  require_auth-IsStored now r srv h =
      let result =
        (current_session crypto url_encode lifetime equal_fold true now r.cookie srv.conn).0 in
      let (s, e, allowed) = guarded-inv r result (sym (verdict-guarded r result) ∙ h) in
      let (token, has_cookie, there) = session-inv now r.cookie srv.conn s e in
      (
        s,
        token,
        has_cookie,
        select-IsStored (crypto.sha256 token) (unix now) srv.conn.db there,
        allowed,
      )
