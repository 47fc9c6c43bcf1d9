-- ===== src/Identity/KeptTokens.antt =====
-- The calls on tokens store no token but of an active user.
use gu_gu_manager.Base.{
  ℕ, ◌+◌, ◌≡◌, ap, ◌∙◌, inl, inr, subst, sym, String, some, Bool-cases, Option-cases,
}
use gu_gu_manager.Base.Calls.{◌>>=◌, require, Result-cases}
use gu_gu_manager.Base.Maps.{lookup, insert-AllValues, remove-AllValues}
use gu_gu_manager.Identity.State.{
  User, ApiToken, PasswordResetRecord, ApiTokenRecord, ConsolePrincipal, Identities, Platform,
  record_audit, token_digest,
}
use gu_gu_manager.Identity.Access.{
  is_active, is_admin_entry, current_actor, authorize_server, require_platform_admin,
}
use gu_gu_manager.Identity.Changes.{IsKeyed}
use gu_gu_manager.Identity.Resets.{
  issue_password_reset_token, issue_to, issue_audit, reset_issued, validate_reset_token,
  usable_reset, password_reset_ttl,
}
use gu_gu_manager.Identity.Tokens.{
  finish_create_api_token, api_token_created, revoke_api_token, api_token_revoked,
  authenticate_api_token, usable_api_token, token_used, fresh_principal, as_forbidden,
  issue_console_connection_token, console_issued, owned_by, console_connection_ttl,
  consume_console_connection_token, console_taken,
}
use gu_gu_manager.Identity.Held.{
  IsHeld, AreHeld, found-IsHeld, current_actor-known, authorize_server-IsHeld,
}

module _ (p : Platform) (s : Identities) (h : AreHeld s.users s) where
  pub create_token-AreHeld :
      IsKeyed s.users
      → (actor : String) (token : ApiToken) (digest trace : String)
      → AreHeld s.users (finish_create_api_token actor token digest trace s).1
  unfolding finish_create_api_token ◌>>=◌ api_token_created record_audit
  create_token-AreHeld keyed actor token digest trace =
      elim (Result-cases (current_actor actor s)) [
        | inr (e, refused) ↦ rw refused h
        | inl (u, known) ↦
            let (v, found, is, held) = current_actor-known s actor u known in
            let same : actor ≡ u.id = sym (keyed actor v found) ∙ ap (λ (x : User). x.id) is in
            rw known (
              h.0,
              h.1,
              insert-AllValues (λ (x : ApiTokenRecord). IsHeld s.users x.user_id) token.id
                  (record { token = token; user_id = u.id }) s.api_tokens
                  (subst (IsHeld s.users) same held) h.2,
              h.3,
            )
      ]

  pub revoke_token-AreHeld :
      (id actor trace : String) → AreHeld s.users (revoke_api_token id actor trace s).1
  unfolding revoke_api_token ◌>>=◌ api_token_revoked record_audit
  revoke_token-AreHeld id actor trace = elim (Result-cases (current_actor actor s)) [
    | inr (e, refused) ↦ rw refused h
    | inl (u, known) ↦ elim (Result-cases (owned_by u (lookup id s.api_tokens))) [
      | inr (e, foreign) ↦ rw (known, foreign) h
      | inl (r, own) ↦
          rw (known, own)
            (
              h.0,
              h.1,
              remove-AllValues (λ (x : ApiTokenRecord). IsHeld s.users x.user_id) id s.api_tokens
                  h.2,
              h.3,
            )
    ]
  ]

  pub use_token-AreHeld :
      (plain : String) (now : ℕ) → AreHeld s.users (authenticate_api_token p plain now s).1
  unfolding authenticate_api_token ◌>>=◌ token_used
  use_token-AreHeld plain now =
      elim (Option-cases (usable_api_token (token_digest p plain) now s)) [
        | inl unusable ↦ rw unusable h
        | inr ((id, r), usable) ↦ elim (Result-cases (current_actor r.user_id s)) [
          | inr (e, refused) ↦ rw (usable, refused) h
          | inl (u, known) ↦
              rw (usable, known)
                (
                  h.0,
                  h.1,
                  insert-AllValues (λ (x : ApiTokenRecord). IsHeld s.users x.user_id) id
                      (record r { token = record r.token { last_used_at = some now } }) s.api_tokens
                      (current_actor-known s r.user_id u known).3 h.2,
                  h.3,
                )
        ]
      ]

  pub issue_console-AreHeld :
      (server user plain : String) (now : ℕ)
      → AreHeld s.users (issue_console_connection_token p server user plain now s).1
  unfolding issue_console_connection_token ◌>>=◌ console_issued
  issue_console-AreHeld server user plain now =
      elim (Result-cases (authorize_server user server "servers.console" s)) [
        | inr (e, refused) ↦ rw refused h
        | inl (u, known) ↦ rw known (
          h.0,
          h.1,
          h.2,
          insert-AllValues (λ (x : ConsolePrincipal). IsHeld s.users x.user_id)
              (token_digest p plain)
              (record {
                user_id = user;
                server_id = server;
                expires_at = now + console_connection_ttl;
              })
              s.console_tokens (authorize_server-IsHeld s user server "servers.console" u known)
              h.3,
        )
      ]

  pub use_console-AreHeld :
      (plain : String) (now : ℕ)
      → AreHeld s.users (consume_console_connection_token p plain now s).1
  unfolding consume_console_connection_token ◌>>=◌ console_taken
  use_console-AreHeld plain now =
      let digest = token_digest p plain in
      let taken : AreHeld s.users (console_taken digest s) = (
        h.0,
        h.1,
        h.2,
        remove-AllValues (λ (x : ConsolePrincipal). IsHeld s.users x.user_id) digest
            s.console_tokens h.3,
      ) in
      elim (Result-cases (fresh_principal (lookup digest s.console_tokens) now)) [
        | inr (e, stale) ↦ rw stale taken
        | inl (c, fresh) ↦
            elim (Result-cases (
              as_forbidden (
                authorize_server c.user_id c.server_id "servers.console"
                  (console_taken digest s)))) [
                    | inr (e, refused) ↦ rw (fresh, refused) taken
                    | inl (u, known) ↦ rw (fresh, known) taken
                  ]
      ]

  pub issue_reset-AreHeld :
      (user_id : String) (actor : User) (token : String) (now : ℕ)
      → AreHeld s.users (issue_password_reset_token p user_id actor token now s).1
  unfolding issue_password_reset_token require_platform_admin require ◌>>=◌ issue_to issue_audit
      reset_issued record_audit
  issue_reset-AreHeld user_id actor token now =
      elim (Bool-cases (is_admin_entry (lookup actor.id s.users))) [
        | inr other ↦ rw other h
        | inl admin ↦ elim (Option-cases (lookup user_id s.users)) [
          | inl missing ↦ rw (admin, missing) h
          | inr (u, found) ↦ elim (Bool-cases (is_active u)) [
            | inr idle ↦ rw (admin, found, idle) h
            | inl active ↦
                rw (admin, found, active)
                  (
                    h.0,
                    insert-AllValues (λ (x : PasswordResetRecord). IsHeld s.users x.user_id)
                        (token_digest p token)
                        (record { user_id = user_id; expires_at = now + password_reset_ttl })
                        s.password_reset_tokens (found-IsHeld s user_id u found active) h.1,
                    h.2,
                    h.3,
                  )
          ]
        ]
      ]

  pub check_reset-AreHeld :
      (digest : String) (now : ℕ) → AreHeld s.users (validate_reset_token digest now s).1
  unfolding validate_reset_token
  check_reset-AreHeld digest now = elim (Option-cases (usable_reset digest now s)) [
    | inl unusable ↦
        rw (unusable, validate_reset_token)
          (
            h.0,
            remove-AllValues (λ (x : PasswordResetRecord). IsHeld s.users x.user_id) digest
                s.password_reset_tokens h.1,
            h.2,
            h.3,
          )
    | inr (found, usable) ↦ rw (usable, validate_reset_token) h
  ]
