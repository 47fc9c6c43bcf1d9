-- ===== src/Identity/Logins.antt =====
-- Sessions from the login on: what a session that was granted is good for.
use gu_gu_manager.Base.{
  ℕ, ◌+◌, ◌≤◌, ◌<◌, ◌≡◌, ◌≢◌, inl, inr, refl, subst, sym, String, true, not, ◌&&◌, ◌||◌, none, some,
  str_eq, ltb, arith, Bool-cases, Option-cases, eq_iff,
}
use gu_gu_manager.Base.Maps.{lookup, remove, lookup-insert, lookup-insert_same, lookup-remove}
use gu_gu_manager.Base.Calls.{ok, err, ◌>>=◌}
use gu_gu_manager.Identity.State.{
  User, StoredUser, Session, Identities, Platform, session_token_digest, record_audit,
}
use gu_gu_manager.Identity.Access.{is_active, auth_required}
use gu_gu_manager.Identity.Sessions.{
  session_ttl, SessionView, login, login_credentials, passes, finish_login, refuse_login,
  still_valid, new_session, logged_in, live_session, drop_session, authenticate_session,
  session_moved, recover_session, validate_csrf,
}

refuse_login-err :
    (trace : String) (s : Identities) (view : SessionView)
    → (refuse_login {A = SessionView} trace s).0 ≢ ok view
unfolding refuse_login ◌>>=◌
refuse_login-err trace s view e = cc

-- A state in which the digest names a session of an active user.
record IsOpen (digest csrf : String) (expires : ℕ) (user : User) (s : Identities) : Type 0 where
  session : Session
  owner : StoredUser
  there : lookup digest s.sessions ≡ some session
  known : lookup session.user_id s.users ≡ some owner
  active : is_active owner ≡ true
  is : owner.user ≡ user
  secret : session.csrf_token ≡ csrf
  until : session.expires_at ≡ expires

module _ (p : Platform) (token csrf : String) (expires : ℕ) (user : User) (s : Identities)
    (o : IsOpen (session_token_digest p token) csrf expires user s) where
  authenticate_open :
      (now : ℕ)
      → now ≤ expires
      → authenticate_session p token now s ≡ (ok (record { user = user; csrf_token = "" }), s)
  unfolding authenticate_session live_session
  authenticate_open now early = ground (arith, o.there, o.known, o.active, o.is, o.until)

  csrf_open :
      (now : ℕ)
      → now < expires
      → (given : String) → validate_csrf p token given now s ≡ str_eq csrf given
  unfolding validate_csrf
  csrf_open now early given = ground (arith, o.there, o.known, o.active, o.is, o.secret, o.until)

still_valid-known :
    (user_id phc : String) (s : Identities) (u : StoredUser)
    → still_valid user_id phc s ≡ some u
    → (lookup user_id s.users ≡ some u) × (is_active u ≡ true)
unfolding still_valid
still_valid-known user_id phc s u e = elim (Option-cases (lookup user_id s.users)) [
  | inl missing ↦ absurd (ground arith)
  | inr (v, found) ↦ elim (Bool-cases (is_active v && str_eq v.password_phc phc)) [
    | inl valid ↦ (ground arith, ground arith)
    | inr stale ↦ absurd (ground arith)
  ]
]

module _ (user_id phc digest csrf trace : String) (expires : ℕ) (view : SessionView)
    (s : Identities) where
  granted :
      (u : StoredUser)
      → still_valid user_id phc s ≡ some u
      → (finish_login user_id phc digest csrf trace expires s).0 ≡ ok view
      → u.user ≡ view.user
  unfolding finish_login
  granted u valid e = ground (arith, valid)

  finish_login-IsOpen :
      (finish_login user_id phc digest csrf trace expires s).0 ≡ ok view
      → IsOpen digest csrf expires view.user
          (finish_login user_id phc digest csrf trace expires s).1
  unfolding finish_login logged_in record_audit new_session
  finish_login-IsOpen e = elim (Option-cases (still_valid user_id phc s)) [
    | inl stale ↦ absurd (ground (arith, refuse_login-err trace s))
    | inr (u, valid) ↦
        rw (valid, finish_login)
          (record {
            session = new_session user_id u.user csrf expires;
            owner = u;
            there = lookup-insert_same digest (new_session user_id u.user csrf expires) s.sessions;
            known = (still_valid-known user_id phc s u valid).0;
            active = (still_valid-known user_id phc s u valid).1;
            is = granted u valid e;
            secret = refl;
            until = refl;
          })
  ]

-- A login that is granted opens a session: until twelve hours later its token authenticates the
-- user and leaves the state as it is, and, before that time, the CSRF token that came with it and
-- no other is accepted.
pub login_authenticated :
    (p : Platform) (email password token csrf trace : String) (now later : ℕ) (view : SessionView)
    (s : Identities) (given : String)
    → (login p email password token csrf trace now s).0 ≡ ok view
    → later < now + session_ttl
    → (authenticate_session p token later (login p email password token csrf trace now s).1 ≡ (
      ok (record { user = view.user; csrf_token = "" }),
      (login p email password token csrf trace now s).1,
    ))
      × (validate_csrf p token given later (login p email password token csrf trace now s).1
          ≡ str_eq csrf given)
unfolding login
login_authenticated p email password token csrf trace now later view s given e early =
    elim (Option-cases (passes p password (login_credentials p email s))) [
      | inl wrong ↦ absurd (refuse_login-err trace s view (rw (wrong, login) at e))
      | inr (u, right) ↦
          let o =
            finish_login-IsOpen u.user.id (login_credentials p email s).1
              (session_token_digest p token) csrf trace (now + session_ttl) view s
              (rw (right, login) at e) in
          rw (right, login)
            (
              authenticate_open p token csrf (now + session_ttl) view.user _ o later (omega arith),
              csrf_open p token csrf (now + session_ttl) view.user _ o later early given,
            )
    ]

live_session-known :
    (digest : String) (now : ℕ) (s : Identities) (x y : Session) (u : StoredUser)
    → lookup digest s.sessions ≡ some x
    → live_session digest now s ≡ some (y, u)
    → (x ≡ y) × (lookup x.user_id s.users ≡ some u) × (is_active u ≡ true)
unfolding live_session
live_session-known digest now s x y u held e = elim (Option-cases (lookup x.user_id s.users)) [
  | inl missing ↦ absurd (ground arith)
  | inr (v, found) ↦ elim (Bool-cases (not (is_active v) || ltb x.expires_at now)) [
    | inl dead ↦ absurd (ground arith)
    | inr live ↦ (ground arith, ground arith, ground arith)
  ]
]

authenticate_missing :
    (p : Platform) (token : String) (now : ℕ) (s : Identities)
    → lookup (session_token_digest p token) s.sessions ≡ none
    → (authenticate_session p token now s).0 ≡ err auth_required
unfolding authenticate_session live_session
authenticate_missing p token now s missing = rw (missing, authenticate_session) refl

module _ (old next csrf : String) (x : Session) (u : StoredUser) (s : Identities) where
  moved-IsOpen :
      lookup x.user_id s.users ≡ some u
      → is_active u ≡ true
      → IsOpen next csrf x.expires_at u.user (session_moved old next x u.user csrf s)
  unfolding session_moved drop_session
  moved-IsOpen known active = record {
    session = record x { user = u.user; csrf_token = csrf };
    owner = u;
    there =
        lookup-insert_same next (record x { user = u.user; csrf_token = csrf })
          (remove old s.sessions);
    known = known;
    active = active;
    is = refl;
    secret = refl;
    until = refl;
  }

  moved-missing : old ≢ next → lookup old (session_moved old next x u.user csrf s).sessions ≡ none
  unfolding session_moved drop_session
  moved-missing fresh = ground (
    arith,
    lookup-insert next old (record x { user = u.user; csrf_token = csrf }) (remove old s.sessions),
    lookup-remove old old s.sessions,
    eq_iff next old,
    eq_iff old old,
  )

module _ (p : Platform) (token new csrf : String) (now : ℕ) (view : SessionView) (s : Identities)
    (x : Session) (held : lookup (session_token_digest p token) s.sessions ≡ some x)
    (fresh : session_token_digest p token ≢ session_token_digest p new) where
  -- A session that is recovered has moved: until the end of the old session the new token
  -- authenticates the user, before it the new CSRF token and no other is accepted, and the old
  -- token authenticates no one.
  pub recover_session_moved :
      (later : ℕ) (given : String)
      → (recover_session p token new csrf now s).0 ≡ ok view
      → later < x.expires_at
      → (authenticate_session p new later (recover_session p token new csrf now s).1 ≡ (
        ok (record { user = view.user; csrf_token = "" }),
        (recover_session p token new csrf now s).1,
      ))
        × (validate_csrf p new given later (recover_session p token new csrf now s).1
            ≡ str_eq csrf given)
        × ((authenticate_session p token later (recover_session p token new csrf now s).1).0
            ≡ err auth_required)
  unfolding recover_session
  recover_session_moved later given e early =
      let old = session_token_digest p token in
      let next = session_token_digest p new in
      elim (Option-cases (live_session old now s)) [
        | inl dead ↦ absurd (ground arith)
        | inr ((y, u), live) ↦
            let (same, known, active) = live_session-known old now s x y u held live in
            let is : u.user ≡ view.user = ground (arith, live) in
            let o =
              subst
                (λ (w : User).
                  IsOpen next csrf x.expires_at w (session_moved old next x u.user csrf s))
                is (moved-IsOpen old next csrf x u s known active) in
            rw
              (
                subst (λ (z : Session). live_session old now s ≡ some (z, u)) (sym same) live,
                recover_session,
              )
              (
                authenticate_open p new csrf x.expires_at view.user _ o later (omega arith),
                csrf_open p new csrf x.expires_at view.user _ o later early given,
                authenticate_missing p token later _ (moved-missing old next csrf x u s fresh),
              )
      ]
