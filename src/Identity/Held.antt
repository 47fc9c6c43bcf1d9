-- ===== src/Identity/Held.antt =====
-- The credentials that are stored, and their users.
use gu_gu_manager.Base.{ℕ, ◌≡◌, inl, inr, String, true, some, arith, Option-cases}
use gu_gu_manager.Base.Calls.{Result-cases, ok}
use gu_gu_manager.Base.Maps.{Assoc, lookup, AllValues}
use gu_gu_manager.Identity.State.{
  User, StoredUser, Session, PasswordResetRecord, ApiTokenRecord, ConsolePrincipal, Identities,
}
use gu_gu_manager.Identity.Access.{is_active, is_active_user, current_actor, authorize_server}
use gu_gu_manager.Identity.Sessions.{still_valid, live_session}

abbrev pub IsHeld : Assoc StoredUser → String → Type 0
IsHeld users id = is_active_user (lookup id users) ≡ true

-- Each session, reset token, API token and console token is that of an active user.
abbrev pub AreHeld : Assoc StoredUser → Identities → Type 0
AreHeld users s =
    AllValues (λ (x : Session). IsHeld users x.user_id) s.sessions
    × AllValues (λ (x : PasswordResetRecord). IsHeld users x.user_id) s.password_reset_tokens
    × AllValues (λ (x : ApiTokenRecord). IsHeld users x.user_id) s.api_tokens
    × AllValues (λ (x : ConsolePrincipal). IsHeld users x.user_id) s.console_tokens

module _ (s : Identities) where
  pub found-IsHeld :
      (id : String) (u : StoredUser)
      → lookup id s.users ≡ some u
      → is_active u ≡ true
      → IsHeld s.users id
  unfolding is_active_user
  found-IsHeld id u found active = rw found active

  pub still_valid-IsHeld :
      (id phc : String) (u : StoredUser) → still_valid id phc s ≡ some u → IsHeld s.users id
  unfolding still_valid is_active_user
  still_valid-IsHeld id phc u e = ground arith

  pub live_session-IsHeld :
      (digest : String) (now : ℕ) (x : Session) (u : StoredUser)
      → live_session digest now s ≡ some (x, u)
      → IsHeld s.users x.user_id
  unfolding live_session is_active_user
  live_session-IsHeld digest now x u e = ground arith

  pub current_actor-known :
      (id : String) (u : User)
      → current_actor id s ≡ ok u
      → (v : StoredUser) × (lookup id s.users ≡ some v) × (v.user ≡ u) × IsHeld s.users id
  unfolding current_actor is_active_user
  current_actor-known id u e = elim (Option-cases (lookup id s.users)) [
    | inl missing ↦ absurd (ground arith)
    | inr (v, found) ↦ (v, found, ground arith, ground arith)
  ]

  pub authorize_server-IsHeld :
      (id server permission : String) (u : User)
      → authorize_server id server permission s ≡ ok u
      → IsHeld s.users id
  unfolding authorize_server
  authorize_server-IsHeld id server permission u e = elim (Result-cases (current_actor id s)) [
    | inl (v, known) ↦ (current_actor-known id v known).3
    | inr (p, refused) ↦ absurd (ground arith)
  ]
