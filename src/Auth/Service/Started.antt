-- ===== src/Auth/Service/Started.antt =====
-- What Bootstrap and Login leave in the tables, and what Authenticate then answers.
use opendash.Prelude.{
  ◌+◌, ◌≤◌, ◌≡◌, ◌≢◌, refl, ap, ◌∙◌, length, String, Bool, true, false, not, ◌&&◌, ◌||◌, Option,
  none, some, List, [], ◌∷◌, Result, ok, err, arith, trim_space, exists, find_first, reject_if,
  or_err, ltb, nat_eq, ◌==◌, if◌then◌else◌, Bool-cases, inl, inr, eq_iff, eq-nil_of_length,
}
use opendash.Prelude.Bytes.{Bytes, bytes_eq}
use opendash.Models.Time.{Time, unix, from_unix}
use opendash.Sql.{Conn, try, ◌>>=◌}
use opendash.Sql.Triple.{
  Triple, Outcome, Triple-pure, Triple-lift, Triple-stmt, Triple-bind, Triple-transaction,
  Triple-ok,
}
use opendash.Auth.Password.{Crypto}
use opendash.Auth.Service.{
  AuthDb, AuthError, AdminRow, SessionRow, Session, admin_exists, unauthenticated, new_row,
  insert_admin, insert_session, delete_sessions, select_session, bootstrap_body, login_body,
  bootstrap, login, authenticate, credentials_ok, or_expire,
}
use opendash.Auth.Service.Consistent.{IsConsistent, no_admin, delete_sessions-Ready}

sessions_of_no_admin : (d : AuthDb) → IsConsistent d → d.admins ≡ [] → d.sessions ≡ []
sessions_of_no_admin d h none_yet =
    eq-nil_of_length d.sessions
      (grind (arith, h.owned, ap (λ (xs : List AdminRow). length xs) none_yet))

-- The single row, if a search finds one.
sole_row :
    (p : AdminRow → Bool) (xs : List AdminRow) (a : AdminRow)
    → length xs ≤ 1
    → find_first p xs ≡ some a
    → xs ≡ a ∷ []
unfolding find_first
sole_row p [] a h e = cc
sole_row p (x ∷ []) a h e = ground arith
sole_row p (x ∷ y ∷ xs) a h e = absurd (omega arith)

module _ (crypto : Crypto) (url_encode : Bytes → String) (lifetime : Time) (now : Time) where
  -- The session `s` of the token is the only one, and belongs to the only administrator.
  pub record Started (token : String) (s : Session) (d : AuthDb) : Type 0 where
    pub admin : AdminRow
    pub admins : d.admins ≡ admin ∷ []
    pub id : admin.id ≡ 1
    pub username : admin.username ≡ s.username
    pub sessions : d.sessions ≡ new_row crypto url_encode lifetime token s.csrf_token now ∷ []
    pub expires : s.expires_at ≡ now + lifetime

  -- the administrator that the rows hold, with no session beside
  abbrev Owned : String → AuthDb → Type 0
  Owned name d = (a : AdminRow) × (d.admins ≡ a ∷ []) × (a.id ≡ 1) × (a.username ≡ name)

  abbrev Begun : String → String → String → AuthDb → Type 0
  Begun name token csrf d =
      Owned name d × (d.sessions ≡ new_row crypto url_encode lifetime token csrf now ∷ [])

  insert_session-Begun :
      (name token csrf : String) (d : AuthDb)
      → Owned name d
      → d.sessions ≡ []
      → let z = insert_session (new_row crypto url_encode lifetime token csrf now) d in
        Outcome (λ _. Begun name token csrf) (λ _ _. Unit {0}) z.0 z.1
  unfolding insert_session exists
  insert_session-Begun name token csrf d (a, admins, id, user) h =
      rw (unused, owner) ((a, admins, id, user), ap (λ (xs : List SessionRow). row ∷ xs) h)
    where
      row : SessionRow
      row = new_row crypto url_encode lifetime token csrf now

      unused : exists (λ s. bytes_eq s.token_hash row.token_hash) d.sessions ≡ false
      unused = rw h

      owner : exists (λ x. nat_eq x.id 1) d.admins ≡ true
      owner = rw admins (ground (arith, id))

  login_body-Begun :
      (name token csrf : String)
      → Triple
          (λ d. IsConsistent d × Owned name d)
          (login_body crypto url_encode lifetime now token csrf)
          (λ _. Begun name token csrf)
          (λ _ _. Unit {0})
  unfolding login_body delete_sessions
  login_body-Begun name token csrf =
      Triple-bind {Q = λ _ d. Owned name d × (d.sessions ≡ [])}
        (Triple-stmt _ _ (λ d h. (h.1, (delete_sessions-Ready (unix now) d h.0).no_session))
          (λ d h. tt))
        (λ _. Triple-stmt _ _ (λ d h. insert_session-Begun name token csrf d h.0 h.1) (λ d h. tt))

  -- The row goes in only where there was no administrator, and so no session.
  insert_admin-Owned :
      (row : AdminRow) (d : AuthDb)
      → row.id ≡ 1
      → IsConsistent d
      → Outcome
          (λ b d'. b ≡ true → Owned row.username d' × (d'.sessions ≡ []))
          (λ _ _. Unit {0})
          (insert_admin row d).0
          (insert_admin row d).1
  unfolding insert_admin
  insert_admin-Owned row d e h =
      elim (Bool-cases (exists (λ a. nat_eq a.id row.id || a.username == row.username) d.admins)) [
        | inl there ↦ rw there (λ absent. cc)
        | inr fresh ↦
            let none_yet : d.admins ≡ [] =
              no_admin d.admins row.username h.admin_ids (rw e at fresh) in
            rw fresh (λ _. (
              (row, ap (λ (xs : List AdminRow). row ∷ xs) none_yet, e, refl),
              sessions_of_no_admin d h none_yet,
            ))
      ]

  bootstrap_body-Begun :
      (name hash token csrf : String)
      → Triple IsConsistent
          (bootstrap_body crypto url_encode lifetime now name hash token csrf)
          (λ _. Begun name token csrf)
          (λ _ _. Unit {0})
  unfolding bootstrap_body
  bootstrap_body-Begun name hash token csrf =
      Triple-bind {Q = λ b d. b ≡ true → Owned name d × (d.sessions ≡ [])}
        (Triple-stmt _ _ (λ d h. insert_admin-Owned _ d refl h) (λ d h. tt))
        λ inserted.
          Triple-bind {Q = λ _ d. Owned name d × (d.sessions ≡ [])}
            (Triple-lift _ (λ a e d h. h (admitted inserted e)) (λ x e d h. tt))
            λ _. Triple-stmt _ _ (λ d h. insert_session-Begun name token csrf d h.0 h.1) (λ d h. tt)
    where
      admitted :
          (inserted : Bool) {a : Unit {0}}
          → reject_if (not inserted) admin_exists ≡ ok a
          → inserted ≡ true
      admitted true e = refl
      admitted false e = cc

  credentials_ok-Owned :
      (dummy password actual : String) (found : Option AdminRow) (name : String) (d : AuthDb)
      → IsConsistent d
      → find_first (λ a. a.username == name) d.admins ≡ found
      → credentials_ok crypto url_encode lifetime dummy password found ≡ ok actual
      → Owned actual d
  credentials_ok-Owned dummy password actual none name d h e k = cc
  credentials_ok-Owned dummy password actual (some a) name d h e k =
      let only : d.admins ≡ a ∷ [] = sole_row _ d.admins a h.one_admin e in
      (a, only, (rw only at h.admin_ids).0, ground (arith, k))

  started :
      (actual token csrf : String) (d : AuthDb)
      → Begun actual token csrf d
      → Started token
          (record { username = actual; csrf_token = csrf; expires_at = now + lifetime })
          d
  started actual token csrf d ((a, admins, id, user), sessions) = record {
    admin = a;
    admins = admins;
    id = id;
    username = user;
    sessions = sessions;
    expires = refl;
  }

  login-Started :
      (dummy : String) (token_bytes csrf_bytes : Option Bytes) (name password : String)
      → Triple IsConsistent
          (login crypto url_encode lifetime dummy now token_bytes csrf_bytes name password)
          (λ r d. Started r.0 r.1 d)
          (λ _ _. Unit {0})
  unfolding login
  login-Started dummy token_bytes csrf_bytes name password =
      Triple-bind
        {Q = λ found d.
          IsConsistent d × (find_first (λ a. a.username == trim_space name) d.admins ≡ found)}
        (Triple-stmt _ _ (λ d h. (h, refl)) (λ d h. tt))
        λ found.
          Triple-bind {Q = λ actual d. IsConsistent d × Owned actual d}
            (Triple-lift _
              (λ actual e d h. (
                h.0,
                credentials_ok-Owned dummy password actual found (trim_space name) d h.0 h.1 e,
              ))
              (λ x e d h. tt))
            λ actual.
              Triple-bind {Q = λ _ d. IsConsistent d × Owned actual d}
                (Triple-lift _ (λ a e d h. h) (λ x e d h. tt))
                λ secrets.
                  Triple-bind {Q = λ _ d. Begun actual secrets.0 secrets.1 d}
                    (Triple-transaction _ _ (login_body-Begun actual secrets.0 secrets.1)
                      (λ e d h. tt))
                    λ _. Triple-pure _ (λ d h. started actual secrets.0 secrets.1 d h)

  bootstrap-Started :
      (salt token_bytes csrf_bytes : Option Bytes) (name password : String)
      → Triple IsConsistent
          (bootstrap crypto url_encode lifetime now salt token_bytes csrf_bytes name password)
          (λ r d. Started r.0 r.1 d)
          (λ _ _. Unit {0})
  unfolding bootstrap
  bootstrap-Started salt token_bytes csrf_bytes name password =
      Triple-bind {Q = λ _. IsConsistent} (Triple-lift _ (λ a e d h. h) (λ x e d h. tt)) λ _.
        Triple-bind {Q = λ _. IsConsistent} (Triple-lift _ (λ a e d h. h) (λ x e d h. tt)) λ hash.
          Triple-bind {Q = λ _. IsConsistent} (Triple-lift _ (λ a e d h. h) (λ x e d h. tt))
            λ secrets.
              Triple-bind {Q = λ _ d. Begun (trim_space name) secrets.0 secrets.1 d}
                (Triple-transaction _ _
                  (bootstrap_body-Begun (trim_space name) hash secrets.0 secrets.1) (λ e d h. tt))
                λ _. Triple-pure _ (λ d h. started (trim_space name) secrets.0 secrets.1 d h)

  -- What Authenticate answers while the driver does not fail.
  pub answer : String → Session → Time → String → Result AuthError Session
  answer token s later t =
      if bytes_eq (crypto.sha256 token) (crypto.sha256 t) && ltb (unix later) (unix s.expires_at)
      then ok (record s { expires_at = from_unix (unix s.expires_at) })
      else err unauthenticated

  select_session-Started :
      (token : String) (s : Session) (d : AuthDb) (later : Time) (t : String)
      → Started token s d
      → or_err (select_session (crypto.sha256 t) (unix later) d) unauthenticated
        ≡ answer token s later t
  unfolding select_session find_first answer
  select_session-Started token s d later t h =
      rw (h.sessions, h.admins, h.expires) (ground (arith, h.id, h.username))

  -- While the driver does not fail, Authenticate answers by the table alone.
  pub authenticate-select :
      (d : AuthDb) (later : Time) (t : String)
      → t ≢ ""
      → (authenticate crypto url_encode lifetime later t (record { db = d; faults = [] })).0
        ≡ or_err (select_session (crypto.sha256 t) (unix later) d) unauthenticated
  unfolding authenticate ◌>>=◌ try
  authenticate-select d later t ne =
      rw (nonempty (t == "") refl) (found (select_session (crypto.sha256 t) (unix later) d))
    where
      nonempty : (b : Bool) → (t == "") ≡ b → (t == "") ≡ false
      nonempty true e = absurd (ne ((eq_iff t "").0 e))
      nonempty false e = e

      found :
          (o : Option Session)
          → (or_expire crypto url_encode lifetime (unix later) o (record { db = d; faults = [] })).0
            ≡ or_err o unauthenticated
      found none = refl
      found (some x) = refl

  authenticate-Started :
      (token : String) (s : Session) (d : AuthDb) (later : Time) (t : String)
      → Started token s d
      → t ≢ ""
      → (authenticate crypto url_encode lifetime later t (record { db = d; faults = [] })).0
        ≡ answer token s later t
  authenticate-Started token s d later t h ne =
      authenticate-select d later t ne ∙ select_session-Started token s d later t h

  -- After a login, on consistent tables and whatever the driver did, that returned a token and the
  -- session `s`: while the driver does not fail, a non-empty token is answered with that session, its
  -- expiry cut to the second, exactly if it has the digest of the returned token and the session has
  -- not expired, and is unauthenticated otherwise: the login has ended every earlier session.
  pub login-authenticate :
      (dummy : String) (token_bytes csrf_bytes : Option Bytes) (name password : String)
      (c : Conn AuthDb) {token : String} {s : Session} (later : Time) (t : String)
      → IsConsistent c.db
      → (login crypto url_encode lifetime dummy now token_bytes csrf_bytes name password c).0
        ≡ ok (token, s)
      → t ≢ ""
      → (authenticate crypto url_encode lifetime later t (record {
        db =
            (login crypto url_encode lifetime dummy now token_bytes csrf_bytes name password
              c).1.db;
        faults = [];
      })).0
        ≡ answer token s later t
  login-authenticate dummy token_bytes csrf_bytes name password c {token} {s} later t h e ne =
      authenticate-Started token s _ later t
        (Triple-ok (login-Started dummy token_bytes csrf_bytes name password) c h e) ne

  -- After a bootstrap, on consistent tables and whatever the driver did, that returned a token and the
  -- session `s`: while the driver does not fail, a non-empty token is answered with that session, its
  -- expiry cut to the second, exactly if it has the digest of the returned token and the session has
  -- not expired, and is unauthenticated otherwise.
  pub bootstrap-authenticate :
      (salt token_bytes csrf_bytes : Option Bytes) (name password : String) (c : Conn AuthDb)
      {token : String} {s : Session} (later : Time) (t : String)
      → IsConsistent c.db
      → (bootstrap crypto url_encode lifetime now salt token_bytes csrf_bytes name password c).0
        ≡ ok (token, s)
      → t ≢ ""
      → (authenticate crypto url_encode lifetime later t (record {
        db =
            (bootstrap crypto url_encode lifetime now salt token_bytes csrf_bytes name password
              c).1.db;
        faults = [];
      })).0
        ≡ answer token s later t
  bootstrap-authenticate salt token_bytes csrf_bytes name password c {token} {s} later t h e ne =
      authenticate-Started token s _ later t
        (Triple-ok (bootstrap-Started salt token_bytes csrf_bytes name password) c h e) ne
