-- ===== src/Identity/Revoked.antt =====
-- The calls on users take the credentials of those who are no longer active.
use gu_gu_manager.Base.{
  ℕ, ◌≡◌, inl, inr, String, true, false, ◌&&◌, none, [], ◌∷◌, str_eq, leb, arith, Bool-cases,
  Option-cases, eq_iff,
}
use gu_gu_manager.Base.Calls.{◌>>=◌, require, Result-cases}
use gu_gu_manager.Base.Maps.{
  Assoc, lookup, insert, lookup-insert, AllValues-map, drop_values-AllValues, remove-AllValues,
}
use gu_gu_manager.Identity.State.{
  User, StoredUser, Session, PasswordResetRecord, ApiTokenRecord, ConsolePrincipal, Identities,
  record_audit,
}
use gu_gu_manager.Identity.Access.{
  is_active, is_active_user, is_admin_entry, require_platform_admin,
}
use gu_gu_manager.Identity.Users.{
  finish_setup, validate_setup, new_user, admin_added, add_user, finish_create_user, user_created,
  revoke_user_sessions, revoke_password_reset_tokens, active_admin_count,
}
use gu_gu_manager.Identity.Updates.{
  UpdateUserInput, finish_update_user, user_updated, updated_user, revoke_inactive,
  removes_active_admin,
}
use gu_gu_manager.Identity.Resets.{
  validate_reset_token, usable_reset, finish_reset_password, password_reset,
}
use gu_gu_manager.Identity.Changes.{IsKeyed}
use gu_gu_manager.Identity.Held.{IsHeld, AreHeld}

AreHeld-map :
    (users users' : Assoc StoredUser) (s : Identities)
    → ((id : String) → IsHeld users id → IsHeld users' id)
    → AreHeld users s
    → AreHeld users' s
AreHeld-map users users' s f h = (
  AllValues-map _ _ s.sessions (λ x. f x.user_id) h.0,
  AllValues-map _ _ s.password_reset_tokens (λ x. f x.user_id) h.1,
  AllValues-map _ _ s.api_tokens (λ x. f x.user_id) h.2,
  AllValues-map _ _ s.console_tokens (λ x. f x.user_id) h.3,
)

module _ (users : Assoc StoredUser) (id : String) (u : StoredUser) where
  -- An active user takes no one's place.
  insert-IsHeld :
      is_active u ≡ true → (other : String) → IsHeld users other → IsHeld (insert id u users) other
  unfolding is_active_user
  insert-IsHeld active other h = ground (arith, lookup-insert id other u users)

  other-IsHeld :
      (other : String)
      → IsHeld users other
      → str_eq other id ≡ false
      → IsHeld (insert id u users) other
  other-IsHeld other h apart =
      ground (arith, lookup-insert id other u users, eq_iff id other, eq_iff other id)

  new-IsHeld :
      lookup id users ≡ none
      → (other : String) → IsHeld users other
      → IsHeld (insert id u users) other
  unfolding is_active_user
  new-IsHeld new other h = ground (arith, lookup-insert id other u users, eq_iff id other)

  -- With all its credentials gone, the user may be any.
  revoked-AreHeld :
      (s : Identities)
      → AreHeld users s
      → AreHeld (insert id u users) (revoke_password_reset_tokens id (revoke_user_sessions id s))
  unfolding revoke_password_reset_tokens revoke_user_sessions
  revoked-AreHeld s h = (
    drop_values-AllValues _ _ (λ (x : Session). str_eq x.user_id id) s.sessions
        (λ x. other-IsHeld x.user_id) h.0,
    drop_values-AllValues _ _ (λ (x : PasswordResetRecord). str_eq x.user_id id)
        s.password_reset_tokens (λ x. other-IsHeld x.user_id) h.1,
    drop_values-AllValues _ _ (λ (x : ApiTokenRecord). str_eq x.user_id id) s.api_tokens
        (λ x. other-IsHeld x.user_id) h.2,
    drop_values-AllValues _ _ (λ (x : ConsolePrincipal). str_eq x.user_id id) s.console_tokens
        (λ x. other-IsHeld x.user_id) h.3,
  )

module _ (s : Identities) (h : AreHeld s.users s) where
  pub create-AreHeld :
      (actor : User) (phc : String) (user : User)
      → lookup user.id s.users ≡ none
      → AreHeld
          (finish_create_user actor phc user s).1.users
          (finish_create_user actor phc user s).1
  unfolding finish_create_user require_platform_admin require ◌>>=◌ user_created add_user
      record_audit
  create-AreHeld actor phc user new = elim (Bool-cases (is_admin_entry (lookup actor.id s.users))) [
    | inr other ↦ rw other h
    | inl admin ↦ elim (Option-cases (lookup user.email s.user_by_email)) [
      | inr (id, taken) ↦ rw (admin, taken) h
      | inl free ↦
          rw (admin, free)
            (AreHeld-map s.users _ s
              (new-IsHeld s.users user.id (record { user = user; password_phc = phc }) new) h)
    ]
  ]

  pub set_up-AreHeld :
      (id email name phc provided : String) (now : ℕ)
      → lookup id s.users ≡ none
      → AreHeld
          (finish_setup id email name phc provided now s).1.users
          (finish_setup id email name phc provided now s).1
  unfolding finish_setup ◌>>=◌ admin_added new_user add_user record_audit
  set_up-AreHeld id email name phc provided now new =
      elim (Result-cases (validate_setup provided now s)) [
        | inr (e, refused) ↦ rw refused h
        | inl (x, accepted) ↦ rw accepted (
            AreHeld-map s.users _ s
              (new-IsHeld s.users id
                (record {
                  user = new_user id email name ("platform_admin" ∷ []) now;
                  password_phc = phc;
                })
                new)
              h)
      ]

  pub update-AreHeld :
      (user_id : String) (change : UpdateUserInput) (actor : User) (now : ℕ)
      → AreHeld
          (finish_update_user user_id change actor now s).1.users
          (finish_update_user user_id change actor now s).1
  unfolding finish_update_user require_platform_admin require ◌>>=◌ user_updated record_audit
      revoke_inactive
  update-AreHeld user_id change actor now =
      elim (Bool-cases (is_admin_entry (lookup actor.id s.users))) [
        | inr other ↦ rw other h
        | inl admin ↦ elim (Option-cases (lookup user_id s.users)) [
          | inl missing ↦ rw (admin, missing) h
          | inr (u, found) ↦
              elim (Bool-cases
                (removes_active_admin change u && leb (active_admin_count s.users) 1)) [
                  | inl last ↦ rw (admin, found, last) h
                  | inr more ↦ elim (Bool-cases (is_active (updated_user change now u))) [
                    | inl active ↦
                        rw (admin, found, more, active)
                          (AreHeld-map s.users _ s
                            (insert-IsHeld s.users user_id (updated_user change now u) active) h)
                    | inr idle ↦
                        rw (admin, found, more, idle)
                          (revoked-AreHeld s.users user_id (updated_user change now u) s h)
                  ]
                ]
        ]
      ]

  pub reset-AreHeld :
      (digest phc : String) (now : ℕ)
      → IsKeyed s.users
      → AreHeld
          (finish_reset_password digest phc now s).1.users
          (finish_reset_password digest phc now s).1
  unfolding finish_reset_password validate_reset_token ◌>>=◌ password_reset revoke_user_sessions
      record_audit revoke_password_reset_tokens
  reset-AreHeld digest phc now keyed = elim (Option-cases (usable_reset digest now s)) [
    | inl unusable ↦
        rw (unusable, validate_reset_token)
          (
            h.0,
            remove-AllValues (λ (x : PasswordResetRecord). IsHeld s.users x.user_id) digest
                s.password_reset_tokens h.1,
            h.2,
            h.3,
          )
    | inr ((r, u), usable) ↦
        rw (usable, validate_reset_token)
          (revoked-AreHeld s.users u.user.id
            (record u { user = record u.user { updated_at = now }; password_phc = phc }) s h)
  ]
