-- ===== src/Auth/Service/Consistent.antt =====
-- The tables `admins` and `sessions` between two calls: one administrator and one session at most.
use opendash.Prelude.{
  ℕ, ◌≤◌, ◌<◌, ◌≡◌, refl, All, length, String, Bool, true, false, List, [], ◌∷◌, ok, err, arith,
  not, keep, exists, leb, nat_eq, Result, length-keep-le, ◌||◌, ◌==◌, Bool-cases, inl, inr,
  eq-nil_of_length, exists-pos, ap,
}
use opendash.Sql.{stmt, query}
use opendash.Sql.Triple.{Triple, Outcome, Triple-stmt}
use opendash.Auth.Service.{
  AuthDb, AuthError, Auth, database_failed, AdminRow, SessionRow, insert_admin, insert_session,
  delete_sessions,
}

abbrev pub empty : AuthDb
empty = record { admins = []; sessions = [] }

pub record IsConsistent (db : AuthDb) : Type 0 where
  pub one_admin : length db.admins ≤ 1
  pub one_session : length db.sessions ≤ 1
  pub admin_ids : All (λ a. a.id ≡ 1) db.admins
  pub session_ids : All (λ s. s.admin_id ≡ 1) db.sessions
  pub owned : 0 < length db.sessions → 0 < length db.admins

-- Between the two statements of a transaction that starts a session.
pub record IsReady (db : AuthDb) : Type 0 where
  pub one_admin : length db.admins ≤ 1
  pub admin_ids : All (λ a. a.id ≡ 1) db.admins
  pub no_session : db.sessions ≡ []

abbrev pub Ready : Bool → AuthDb → Type 0
Ready true db = IsReady db
Ready false db = Unit {0}

pub no_admin :
    (admins : List AdminRow) (name : String)
    → All (λ a. a.id ≡ 1) admins
    → exists (λ a. nat_eq a.id 1 || a.username == name) admins ≡ false
    → admins ≡ []
unfolding exists
no_admin [] name h e = refl
no_admin (a ∷ rest) name h e = ground arith

no_sessions :
    (sessions : List SessionRow) (now : ℕ)
    → All (λ s. s.admin_id ≡ 1) sessions
    → keep (λ s. not (nat_eq s.admin_id 1 || leb s.expires_at now)) sessions ≡ []
unfolding keep
no_sessions [] now h = refl
no_sessions (s ∷ rest) now h = ground (arith, no_sessions rest now)

pub insert_admin-Ready :
    (row : AdminRow) (db : AuthDb)
    → row.id ≡ 1
    → IsConsistent db
    → Outcome Ready (λ _ _. Unit {0}) (insert_admin row db).0 (insert_admin row db).1
unfolding insert_admin
insert_admin-Ready row db e h =
    elim (Bool-cases (exists (λ a. nat_eq a.id row.id || a.username == row.username) db.admins)) [
      | inl there ↦ rw there tt
      | inr fresh ↦
          let empty : db.admins ≡ [] =
            no_admin db.admins row.username h.admin_ids (rw e at fresh) in
          rw fresh (record {
            one_admin = rw empty (omega arith);
            admin_ids = (e, rw empty tt);
            no_session =
                eq-nil_of_length db.sessions
                  (grind (arith, h.owned, ap (λ (xs : List AdminRow). length xs) empty));
          })
    ]

pub delete_sessions-Ready :
    (now : ℕ) (db : AuthDb)
    → IsConsistent db
    → IsReady (delete_sessions (λ s. nat_eq s.admin_id 1 || leb s.expires_at now) db).1
unfolding delete_sessions
delete_sessions-Ready now db h = record {
  one_admin = h.one_admin;
  admin_ids = h.admin_ids;
  no_session = no_sessions db.sessions now h.session_ids;
}

pub insert_session-IsConsistent :
    (row : SessionRow) (db : AuthDb)
    → row.admin_id ≡ 1
    → IsReady db
    → Outcome
        (λ _. IsConsistent)
        (λ _ _. Unit {0})
        (insert_session row db).0
        (insert_session row db).1
unfolding insert_session exists
insert_session-IsConsistent row db e h =
    elim (Bool-cases (exists (λ a. nat_eq a.id row.admin_id) db.admins)) [
      | inl owner ↦
          rw (h.no_session, owner)
            (record {
              one_admin = h.one_admin;
              one_session = omega arith;
              admin_ids = h.admin_ids;
              session_ids = (e, tt);
              owned = λ _. exists-pos _ db.admins owner;
            })
      | inr orphan ↦ rw (h.no_session, orphan) tt
    ]

-- The call keeps the tables consistent, whether it returns or fails.
abbrev pub Keeps : {A : Type 0} → Auth A → Type 0
Keeps m = Triple IsConsistent m (λ _. IsConsistent) (λ _. IsConsistent)

keep-le-one :
    (p : SessionRow → Bool) (xs : List SessionRow) → length xs ≤ 1 → length (keep p xs) ≤ 1
keep-le-one p xs h = omega (arith, length-keep-le p xs)

All-keep :
    (p : SessionRow → Bool) (xs : List SessionRow)
    → All (λ s. s.admin_id ≡ 1) xs
    → All (λ s. s.admin_id ≡ 1) (keep p xs)
unfolding keep
All-keep p [] h = tt
All-keep p (x ∷ xs) h = elim (Bool-cases (p x)) [
  | inl e ↦ rw e (h.0, All-keep p xs h.1)
  | inr e ↦ rw e (All-keep p xs h.1)
]

-- Deleting sessions keeps the tables consistent.
pub delete_sessions-IsConsistent :
    (doomed : SessionRow → Bool) → Keeps (stmt database_failed (delete_sessions doomed))
unfolding delete_sessions
delete_sessions-IsConsistent doomed =
    Triple-stmt _ _
      (λ d h. record {
        one_admin = h.one_admin;
        one_session = keep-le-one _ d.sessions h.one_session;
        admin_ids = h.admin_ids;
        session_ids = All-keep _ d.sessions h.session_ids;
        owned = λ k. h.owned (omega (arith, k, length-keep-le (λ s. not (doomed s)) d.sessions));
      })
      (λ d h. h)

pub query-IsConsistent :
    {A : Type 0} (f : AuthDb → Result AuthError A) → Keeps (query database_failed f)
query-IsConsistent f = Triple-stmt _ _ (λ d h. either (f d) d h) (λ d h. h)
  where
    either :
        {A : Type 0} (r : Result AuthError A) (d : AuthDb)
        → IsConsistent d
        → Outcome (λ _. IsConsistent) (λ _. IsConsistent) r d
    either (ok a) d h = h
    either (err e) d h = h
