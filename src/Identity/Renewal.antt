-- ===== src/Identity/Renewal.antt =====
-- A password that is set anew by a token.
use gu_gu_manager.Base.{
  ap, ◌∙◌, ℕ, ◌+◌, ◌≡◌, ◌≢◌, inl, inr, refl, subst, sym, String, Bool, true, false, Option, none,
  some, [], ◌∷◌, str_eq, arith, Bool-cases, Option-cases, eq_iff, str_eq_refl, trim_space,
}
use gu_gu_manager.Base.Maps.{
  Assoc, lookup, lookup-insert_same, AllValues, drop_values, IsDistinct, drop_values-gone,
}
use gu_gu_manager.Base.Calls.{ok, ◌>>=◌, Result-cases}
use gu_gu_manager.Identity.State.{
  StoredUser, Session, PasswordResetRecord, Identities, Platform, token_digest,
  session_token_digest, record_audit,
}
use gu_gu_manager.Identity.Names.{validate_password}
use gu_gu_manager.Identity.Access.{is_active}
use gu_gu_manager.Identity.Users.{revoke_user_sessions}
use gu_gu_manager.Identity.Resets.{
  usable_reset, validate_reset_token, password_reset, finish_reset_password, reset_password,
}
use gu_gu_manager.Identity.Sessions.{
  login, login_credentials, passes, still_valid, finish_login, session_ttl,
}
use gu_gu_manager.Identity.Changes.{IsKeyed, usable_reset-known}
use gu_gu_manager.Identity.Emails.{AreConsistent}

usable_reset-active :
    (digest : String) (now : ℕ) (s : Identities) (r : PasswordResetRecord) (u : StoredUser)
    → usable_reset digest now s ≡ some (r, u)
    → (lookup digest s.password_reset_tokens ≡ some r) × (is_active u ≡ true)
unfolding usable_reset
usable_reset-active digest now s r u e = (ground arith, ground arith)

dropped :
    {V : Type 0} (test : V → Bool) (m : Assoc V)
    → AllValues (λ v. test v ≡ false) (drop_values test m)
unfolding drop_values
dropped test [] = tt
dropped test ((k, v) ∷ m) = elim (Bool-cases (test v)) [
  | inl gone ↦ rw gone (dropped test m)
  | inr stays ↦ rw stays (stays, dropped test m)
]

module _ (p : Platform) (token password salt : String) (first second : ℕ) (s : Identities) where
  reset_password-cases :
      (x : Unit {0})
      → (reset_password p token password salt first second s).0 ≡ ok x
      → (phc : String) × (r : PasswordResetRecord) × (u : StoredUser) × (p.hash_password salt
            password
          ≡ some phc)
        × (usable_reset (token_digest p token) second s ≡ some (r, u))
        × ((reset_password p token password salt first second s).1 ≡ password_reset u phc second s)
  unfolding reset_password finish_reset_password validate_reset_token ◌>>=◌
  reset_password-cases x e =
      let digest = token_digest p token in
      elim (Result-cases (validate_password password)) [
        | inr (q, poor) ↦ absurd (ground arith)
        | inl (y, good) ↦ elim (Option-cases (usable_reset digest first s)) [
          | inl dead ↦ absurd (ground arith)
          | inr (a, alive) ↦ elim (Option-cases (p.hash_password salt password)) [
            | inl failed ↦ absurd (ground arith)
            | inr (phc, hashed) ↦ elim (Option-cases (usable_reset digest second s)) [
              | inl gone ↦ absurd (ground arith)
              | inr ((r, u), usable) ↦ (
                phc,
                r,
                u,
                hashed,
                usable,
                rw (good, alive, hashed, usable, reset_password, validate_reset_token) refl,
              )
            ]
          ]
        ]
      ]

-- The users and tokens after the reset of a user's password.
module _ (p : Platform) (u : StoredUser) (phc : String) (now : ℕ) (s : Identities) where
  abbrev renewed : StoredUser
  renewed = record u { user = record u.user { updated_at = now }; password_phc = phc }

  reset-no_session :
      AllValues
        (λ (x : Session). str_eq x.user_id u.user.id ≡ false)
        (password_reset u phc now s).sessions
  unfolding password_reset revoke_user_sessions record_audit
  reset-no_session = dropped (λ (x : Session). str_eq x.user_id u.user.id) s.sessions

  reset-spent :
      (digest : String) (r : PasswordResetRecord)
      → lookup digest s.password_reset_tokens ≡ some r
      → lookup r.user_id s.users ≡ some u
      → IsKeyed s.users
      → IsDistinct s.password_reset_tokens
      → (later : ℕ) → usable_reset digest later (password_reset u phc now s) ≡ none
  unfolding password_reset revoke_user_sessions record_audit usable_reset
  reset-spent digest r held known keyed distinct later =
      let own : str_eq r.user_id u.user.id ≡ true =
        (eq_iff r.user_id u.user.id).1 (sym (keyed r.user_id u known)) in
      rw
        (
          drop_values-gone (λ (x : PasswordResetRecord). str_eq x.user_id u.user.id) digest
              s.password_reset_tokens r distinct held own,
          usable_reset,
        )
        refl

  module _ (known : lookup u.user.id s.users ≡ some u) (active : is_active u ≡ true)
      (indexed : lookup u.user.email s.user_by_email ≡ some u.user.id)
      (email password token csrf trace : String)
      (named : p.to_lower (trim_space email) ≡ u.user.email)
      (verified : p.verify_password phc password ≡ true) where
    credentials_lem : login_credentials p email (password_reset u phc now s) ≡ (some renewed, phc)
    unfolding login_credentials password_reset revoke_user_sessions record_audit
    credentials_lem = ground (arith, named, indexed, lookup-insert_same u.user.id renewed s.users)

    passes_lem : passes p password (some renewed, phc) ≡ some renewed
    unfolding passes is_active
    passes_lem = ground (arith, active, verified)

    still_valid_lem : still_valid u.user.id phc (password_reset u phc now s) ≡ some renewed
    unfolding still_valid password_reset revoke_user_sessions record_audit is_active
    still_valid_lem =
        ground (arith, active, lookup-insert_same u.user.id renewed s.users, str_eq_refl phc)

    finish_login_lem :
        (digest : String) (expires : ℕ)
        → (finish_login u.user.id phc digest csrf trace expires (password_reset u phc now s)).0
          ≡ ok (record { user = renewed.user; csrf_token = csrf })
    unfolding finish_login
    finish_login_lem digest expires = ground (arith, still_valid_lem)

    login_renewed :
        (later : ℕ)
        → (login p email password token csrf trace later (password_reset u phc now s)).0
          ≡ ok (record { user = renewed.user; csrf_token = csrf })
    unfolding login
    login_renewed later =
        rw (credentials_lem, passes_lem, login, credentials_lem)
          (finish_login_lem (session_token_digest p token) (later + session_ttl))

-- A token that is spent is not usable.
spent : {A : Type 0} (o : Option A) (a : A) → o ≡ none → o ≡ some a → ⊥
spent o a gone there = cc

some_same : {A : Type 0} {o : Option A} (a b : A) → o ≡ some a → o ≡ some b → a ≡ b
some_same a b h k = cc

module _ (p : Platform)
    (verifies : (salt plain phc : String)
      → p.hash_password salt plain ≡ some phc
      → p.verify_password phc plain ≡ true)
    (s : Identities) (c : AreConsistent s) (distinct : IsDistinct s.password_reset_tokens) where
  -- With consistent users, no digest twice, and hashes that verify, a token of a user resets a
  -- password with success. Then it does not reset any password again at any time, no session of the
  -- user is left, and the new password logs the user in under each spelling of its address.
  pub reset_password-renews :
      (token password salt : String) (first second : ℕ) (r : PasswordResetRecord) (u : StoredUser)
      → lookup (token_digest p token) s.password_reset_tokens ≡ some r
      → lookup r.user_id s.users ≡ some u
      → (reset_password p token password salt first second s).0 ≡ ok tt
      → (again salt' : String) (a b : ℕ) (email fresh csrf trace : String) (later : ℕ)
      → p.to_lower (trim_space email) ≡ u.user.email
      → let t = (reset_password p token password salt first second s).1 in
        ((reset_password p token again salt' a b t).0 ≢ ok tt)
        × AllValues (λ (x : Session). str_eq x.user_id u.user.id ≡ false) t.sessions
        × ((login p email password fresh csrf trace later t).0
            ≡ ok (record { user = record u.user { updated_at = second }; csrf_token = csrf }))
  reset_password-renews token password salt first second r u held known e again salt' a b email
        fresh csrf trace later named =
      let (phc, r', u', hashed, usable, is) =
        reset_password-cases p token password salt first second s tt e in
      let digest = token_digest p token in
      let found = usable_reset-known digest second s r' u' usable in
      let (held', active') = usable_reset-active digest second s r' u' usable in
      let same_reset : r' ≡ r = some_same r' r held' held in
      let same_user : u' ≡ u =
        some_same u' u found
          (ap (λ (x : PasswordResetRecord). lookup x.user_id s.users) same_reset ∙ known) in
      let active : is_active u ≡ true = subst (λ v. is_active v ≡ true) same_user active' in
      let after : (reset_password p token password salt first second s).1
          ≡ password_reset u phc second s =
        is ∙ ap (λ v. password_reset v phc second s) same_user in
      let stored : lookup u.user.id s.users ≡ some u =
        subst (λ k. lookup k s.users ≡ some u) (sym (c.keyed r.user_id u known)) known in
      let t = password_reset u phc second s in
      rw after (
        (λ e'.
            let (_, r2, u2, _, usable2, _) = reset_password-cases p token again salt' a b t tt e' in
            spent _ (r2, u2) (reset-spent p u phc second s digest r held known c.keyed distinct b)
              usable2),
        reset-no_session p u phc second s,
        login_renewed p u phc second s stored active (c.listed u.user.id u stored) email password
            fresh csrf trace named (verifies salt password phc hashed) later,
      )
