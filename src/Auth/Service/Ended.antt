-- ===== src/Auth/Service/Ended.antt =====
-- What a Logout leaves.
use opendash.Prelude.{
  ℕ, ◌≡◌, ◌≢◌, refl, String, Bool, true, false, not, ◌&&◌, none, [], ok, err, arith, ltb, ◌==◌,
  if◌then◌else◌, Bool-cases, inl, inr, eq_iff, find_first-keep_miss, find_first-keep_all,
}
use opendash.Prelude.Bytes.{Bytes, bytes_eq, bytes_eq_iff}
use opendash.Models.Time.{Time, unix}
use opendash.Sql.{Conn}
use opendash.Sql.Triple.{Triple, Triple-stmt, Triple-ok}
use opendash.Auth.Password.{Crypto}
use opendash.Auth.Service.{
  AuthDb, SessionRow, unauthenticated, delete_sessions, select_session, logout, authenticate,
}
use opendash.Auth.Service.Started.{authenticate-select}

-- Deleting the sessions of one digest hides those of that digest, and no other.
select-delete :
    (d : AuthDb) (gone digest : Bytes) (now : ℕ)
    → select_session digest now (delete_sessions (λ s. bytes_eq s.token_hash gone) d).1
      ≡ (if bytes_eq gone digest then none else select_session digest now d)
unfolding select_session delete_sessions
select-delete d gone digest now = elim (Bool-cases (bytes_eq gone digest)) [
  | inl same ↦
      rw
        (
          same,
          find_first-keep_miss _ (λ s. not (bytes_eq s.token_hash gone)) d.sessions (hidden same),
        )
        refl
  | inr other ↦
      rw
        (
          other,
          find_first-keep_all _ (λ s. not (bytes_eq s.token_hash gone)) d.sessions (spared other),
        )
        refl
]
  where
    hidden :
        bytes_eq gone digest ≡ true
        → (s : SessionRow) → (bytes_eq s.token_hash digest && ltb now s.expires_at) ≡ true
        → not (bytes_eq s.token_hash gone) ≡ false
    hidden same s h = ground (
      arith,
      bytes_eq_iff gone digest,
      bytes_eq_iff s.token_hash digest,
      bytes_eq_iff s.token_hash gone,
    )

    spared :
        bytes_eq gone digest ≡ false
        → (s : SessionRow) → (bytes_eq s.token_hash digest && ltb now s.expires_at) ≡ true
        → not (bytes_eq s.token_hash gone) ≡ true
    spared other s h = ground (
      arith,
      bytes_eq_iff gone digest,
      bytes_eq_iff s.token_hash digest,
      bytes_eq_iff s.token_hash gone,
    )

module _ (crypto : Crypto) (url_encode : Bytes → String) (lifetime : Time) where
  logout-deleted :
      (token : String) (d0 : AuthDb)
      → token ≢ ""
      → Triple
          (λ d. d ≡ d0)
          (logout crypto url_encode lifetime token)
          (λ _ d. d ≡ (delete_sessions (λ s. bytes_eq s.token_hash (crypto.sha256 token)) d0).1)
          (λ _ _. Unit {0})
  unfolding logout delete_sessions
  logout-deleted token d0 ne = go (token == "") refl
    where
      go :
          (b : Bool)
          → (token == "") ≡ b
          → Triple
              (λ d. d ≡ d0)
              (logout crypto url_encode lifetime token)
              (λ _ d. d ≡ (delete_sessions (λ s. bytes_eq s.token_hash (crypto.sha256 token)) d0).1)
              (λ _ _. Unit {0})
      go true e = absurd (ne ((eq_iff token "").0 e))
      go false e = rw e (Triple-stmt _ _ (λ d h. rw h refl) (λ d h. tt))

  -- After a Logout that returned no error, a non-empty token with the digest of the one given is
  -- unauthenticated, and any other is answered as before, while the driver does not fail.
  pub logout-authenticate :
      (token : String) (c : Conn AuthDb) (later : Time) (t : String)
      → token ≢ ""
      → (logout crypto url_encode lifetime token c).0 ≡ ok tt
      → t ≢ ""
      → (authenticate crypto url_encode lifetime later t
          (record { db = (logout crypto url_encode lifetime token c).1.db; faults = [] })).0
        ≡ (if bytes_eq (crypto.sha256 token) (crypto.sha256 t)
            then err unauthenticated
            else (authenticate crypto url_encode lifetime later t
                (record { db = c.db; faults = [] })).0)
  logout-authenticate token c later t ne e ne' =
      rw
        (
          authenticate-select crypto url_encode lifetime later _ later t ne',
          authenticate-select crypto url_encode lifetime later c.db later t ne',
          Triple-ok (logout-deleted token c.db ne) c refl e,
          select-delete c.db (crypto.sha256 token) (crypto.sha256 t) (unix later),
        )
        (ground arith)
