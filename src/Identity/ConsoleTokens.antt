-- ===== src/Identity/ConsoleTokens.antt =====
-- The life of a console token: issued, used and spent.
use gu_gu_manager.Base.{ℕ, ◌+◌, ◌<◌, ◌≡◌, inl, inr, refl, ◌∙◌, String, none, some, arith, eq_iff}
use gu_gu_manager.Base.Maps.{lookup, lookup-insert_same, lookup-remove}
use gu_gu_manager.Base.Calls.{ok, err, ◌>>=◌, Result-cases}
use gu_gu_manager.Identity.State.{User, ConsolePrincipal, Identities, Platform, token_digest}
use gu_gu_manager.Identity.Access.{
  current_actor, allow_actor, membership_of, authorize_server, auth_required,
}
use gu_gu_manager.Identity.Tokens.{
  issue_console_connection_token, console_issued, consume_console_connection_token, console_taken,
  console_connection_ttl, fresh_principal, as_forbidden,
}

-- The right to a server is a matter of the users, the memberships and the servers.
module _ (digest : String) (c : ConsolePrincipal) (s : Identities) where
  authorize_issued :
      (actor server permission : String)
      → authorize_server actor server permission (console_issued digest c s)
        ≡ authorize_server actor server permission s
  unfolding console_issued authorize_server current_actor allow_actor membership_of
  authorize_issued actor server permission = refl

  authorize_taken :
      (actor server permission : String)
      → authorize_server actor server permission (console_taken digest s)
        ≡ authorize_server actor server permission s
  unfolding console_taken authorize_server current_actor allow_actor membership_of
  authorize_taken actor server permission = refl

module _ (p : Platform) (plain : String) (now : ℕ) (s : Identities) where
  consume-answer :
      (c : ConsolePrincipal) (u : User)
      → lookup (token_digest p plain) s.console_tokens ≡ some c
      → now < c.expires_at
      → authorize_server c.user_id c.server_id "servers.console" s ≡ ok u
      → (consume_console_connection_token p plain now s).0 ≡ ok c
  unfolding consume_console_connection_token ◌>>=◌
  consume-answer c u held early granted = ground (
    arith,
    held,
    granted,
    authorize_taken (token_digest p plain) c s c.user_id c.server_id "servers.console",
  )

  consume-missing :
      lookup (token_digest p plain) s.console_tokens ≡ none
      → (consume_console_connection_token p plain now s).0 ≡ err auth_required
  unfolding consume_console_connection_token ◌>>=◌
  consume-missing gone = rw gone refl

  -- The token is taken on every branch.
  consume-state :
      (consume_console_connection_token p plain now s).1 ≡ console_taken (token_digest p plain) s
  unfolding consume_console_connection_token ◌>>=◌
  consume-state =
      elim (Result-cases (fresh_principal (lookup (token_digest p plain) s.console_tokens) now)) [
        | inr (q, stale) ↦ rw stale refl
        | inl (c, fresh) ↦
            elim (Result-cases (
              as_forbidden (
                authorize_server c.user_id c.server_id "servers.console"
                  (console_taken (token_digest p plain) s)))) [
                    | inr (q, refused) ↦ rw (fresh, refused) refl
                    | inl (u, granted) ↦ rw (fresh, granted) refl
                  ]
      ]

  taken-missing :
      lookup (token_digest p plain) (console_taken (token_digest p plain) s).console_tokens ≡ none
  unfolding console_taken
  taken-missing = ground (
    arith,
    lookup-remove (token_digest p plain) (token_digest p plain) s.console_tokens,
    eq_iff (token_digest p plain) (token_digest p plain),
  )

issued-there :
    (digest : String) (c : ConsolePrincipal) (s : Identities)
    → lookup digest (console_issued digest c s).console_tokens ≡ some c
unfolding console_issued
issued-there digest c s = lookup-insert_same digest c s.console_tokens

module _ (p : Platform) (server user plain : String) (s : Identities) where
  -- A console token that is issued lets its user in once: within a minute its first use answers
  -- with the user and the server that it was issued for, and each later use is refused.
  pub console_token_once :
      (now first again expires : ℕ)
      → (issue_console_connection_token p server user plain now s).0 ≡ ok expires
      → first < now + console_connection_ttl
      → ((consume_console_connection_token p plain first
            (issue_console_connection_token p server user plain now s).1).0
          ≡ ok (record {
            user_id = user;
            server_id = server;
            expires_at = now + console_connection_ttl;
          }))
        × ((consume_console_connection_token p plain again
              (consume_console_connection_token p plain first
                (issue_console_connection_token p server user plain now s).1).1).0
            ≡ err auth_required)
  unfolding issue_console_connection_token ◌>>=◌
  console_token_once now first again expires e early =
      elim (Result-cases (authorize_server user server "servers.console" s)) [
        | inr (q, refused) ↦ absurd (ground arith)
        | inl (u, granted) ↦
            let c : ConsolePrincipal = record {
              user_id = user;
              server_id = server;
              expires_at = now + console_connection_ttl;
            } in
            let t = console_issued (token_digest p plain) c s in
            let allowed =
              authorize_issued (token_digest p plain) c s user server "servers.console" ∙ granted in
            rw granted (
              consume-answer p plain first t c u (issued-there (token_digest p plain) c s) early
                  allowed,
              rw (consume-state p plain first t)
                  (consume-missing p plain again _ (taken-missing p plain first t)),
            )
      ]
