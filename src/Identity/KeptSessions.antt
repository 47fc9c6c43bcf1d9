-- ===== src/Identity/KeptSessions.antt =====
-- The calls on sessions store no session but of an active user.
use gu_gu_manager.Base.{ℕ, inl, inr, String, Option-cases}
use gu_gu_manager.Base.Calls.{◌>>=◌}
use gu_gu_manager.Base.Maps.{lookup, remove, insert-AllValues, remove-AllValues}
use gu_gu_manager.Identity.State.{Session, Identities, Platform, record_audit, session_token_digest}
use gu_gu_manager.Identity.Sessions.{
  finish_login, still_valid, new_session, refuse_login, logged_in, authenticate_session,
  live_session, recover_session, session_moved, drop_session, logout,
}
use gu_gu_manager.Identity.Held.{IsHeld, AreHeld, still_valid-IsHeld, live_session-IsHeld}

module _ (p : Platform) (s : Identities) (h : AreHeld s.users s) where
  abbrev HasSession : Session → Type 0
  HasSession x = IsHeld s.users x.user_id

  pub logout-AreHeld : (token trace : String) → AreHeld s.users (logout p token trace s)
  unfolding logout drop_session record_audit
  logout-AreHeld token trace =
      let digest = session_token_digest p token in
      let less = remove-AllValues HasSession digest s.sessions h.0 in
      elim (Option-cases (lookup digest s.sessions)) [
        | inl missing ↦ rw (missing, logout) (less, h.1, h.2, h.3)
        | inr (x, found) ↦ rw (found, logout) (less, h.1, h.2, h.3)
      ]

  pub authenticate-AreHeld :
      (token : String) (now : ℕ) → AreHeld s.users (authenticate_session p token now s).1
  unfolding authenticate_session drop_session
  authenticate-AreHeld token now =
      let digest = session_token_digest p token in
      elim (Option-cases (live_session digest now s)) [
        | inl dead ↦
            rw (dead, authenticate_session)
              (remove-AllValues HasSession digest s.sessions h.0, h.1, h.2, h.3)
        | inr (x, live) ↦ rw (live, authenticate_session) h
      ]

  pub recover-AreHeld :
      (token new csrf : String) (now : ℕ)
      → AreHeld s.users (recover_session p token new csrf now s).1
  unfolding recover_session drop_session session_moved
  recover-AreHeld token new csrf now =
      let digest = session_token_digest p token in
      let less = remove-AllValues HasSession digest s.sessions h.0 in
      elim (Option-cases (live_session digest now s)) [
        | inl dead ↦ rw (dead, recover_session) (less, h.1, h.2, h.3)
        | inr ((x, u), live) ↦
            rw (live, recover_session)
              (
                insert-AllValues HasSession (session_token_digest p new)
                    (record x { user = u.user; csrf_token = csrf }) (remove digest s.sessions)
                    (live_session-IsHeld s digest now x u live) less,
                h.1,
                h.2,
                h.3,
              )
      ]

  pub login-AreHeld :
      (id phc digest csrf trace : String) (expires : ℕ)
      → AreHeld s.users (finish_login id phc digest csrf trace expires s).1
  unfolding finish_login refuse_login logged_in record_audit ◌>>=◌ new_session
  login-AreHeld id phc digest csrf trace expires = elim (Option-cases (still_valid id phc s)) [
    | inl stale ↦ rw (stale, finish_login) h
    | inr (u, valid) ↦
        rw (valid, finish_login)
          (
            insert-AllValues HasSession digest (new_session id u.user csrf expires) s.sessions
                (still_valid-IsHeld s id phc u valid) h.0,
            h.1,
            h.2,
            h.3,
          )
  ]
