-- ===== src/Identity/Tokens.antt =====
-- internal/store/access_tokens.go: API tokens and console connection tokens of the memory adapter.
use gu_gu_manager.Base.{
  ℕ, ◌+◌, String, Bool, false, Option, none, some, List, [], ◌∷◌, leb, ltb, str_eq, if◌then◌else◌,
}
use gu_gu_manager.Base.Maps.{Assoc, lookup, insert, remove, drop_values}
use gu_gu_manager.Base.Calls.{Result, ok, err, pure, lift, gets, modify, ◌>>=◌, ◌>>◌, or_problem}
use gu_gu_manager.Identity.State.{
  User, ApiToken, ApiTokenRecord, ConsolePrincipal, Identities, Exec, Platform, token_digest,
  record_audit,
}
use gu_gu_manager.Identity.Names.{normalize_api_token_input, minute}
use gu_gu_manager.Identity.Access.{
  current_actor, authorize_server, forbidden, not_found, auth_required,
}

unfoldable pub api_token_created : User → ApiToken → String → String → Identities → Identities
unfolding insert record_audit
api_token_created current token digest trace s =
    record_audit current.display_name "api_token.create" token.name "success" trace (record s {
      api_tokens = insert token.id (record { token = token; user_id = current.id }) s.api_tokens;
      api_token_by_digest = insert digest token.id s.api_token_by_digest;
    })

unfoldable pub new_api_token : String → String × List String → Option ℕ → ℕ → ApiToken
new_api_token id (name, scopes) expires now = record {
  id = id;
  name = name;
  scopes = scopes;
  expires_at = expires;
  last_used_at = none;
  created_at = now;
}

-- The section that holds the lock.
unfoldable pub finish_create_api_token : String → ApiToken → String → String → Exec ApiToken
unfolding ◌>>=◌ current_actor api_token_created
finish_create_api_token actor_id token digest trace = do
  current ← lift (← gets (current_actor actor_id))
  modify (api_token_created current token digest trace)
  pure token

pub record CreateApiTokenInput : Type 0 where
  pub name : String
  pub scopes : List String
  pub expires_at : Option ℕ

-- `plain` is the random token that is drawn, `id` and `trace` are new identifiers.
unfoldable pub create_api_token :
    Platform → CreateApiTokenInput → String → String → String → String → ℕ → Exec ApiToken
unfolding ◌>>=◌ normalize_api_token_input finish_create_api_token new_api_token token_digest
create_api_token p input actor_id plain id trace now = do
  named ← lift (normalize_api_token_input input.name input.scopes input.expires_at now)
  let token = new_api_token id named input.expires_at now
  finish_create_api_token actor_id token (token_digest p plain) trace

-- `sort.Slice` by the time of creation, the newest first: equal times may come in any order.
unfoldable pub insert_newest : ApiToken → List ApiToken → List ApiToken
insert_newest t [] = t ∷ []
insert_newest t (u ∷ us) =
    if leb u.created_at t.created_at then t ∷ u ∷ us else u ∷ insert_newest t us

unfoldable pub api_tokens_of : String → Assoc ApiTokenRecord → List ApiToken
unfolding insert_newest
api_tokens_of user_id [] = []
api_tokens_of user_id ((id, r) ∷ rest) =
    let others = api_tokens_of user_id rest in
    if str_eq r.user_id user_id then insert_newest r.token others else others

unfoldable pub api_token_revoked : User → String → ApiTokenRecord → String → Identities → Identities
unfolding remove drop_values record_audit
api_token_revoked current id r trace s =
    record_audit current.display_name "api_token.revoke" r.token.name "success" trace (record s {
      api_tokens = remove id s.api_tokens;
      api_token_by_digest = drop_values (λ held. str_eq held id) s.api_token_by_digest;
    })

abbrev pub owned_by : User → Option ApiTokenRecord → Result ApiTokenRecord
owned_by current none = err not_found
owned_by current (some r) = if str_eq r.user_id current.id then ok r else err not_found

unfoldable pub revoke_api_token : String → String → String → Exec (Unit {0})
unfolding ◌>>=◌ current_actor lookup api_token_revoked
revoke_api_token id actor_id trace = do
  current ← lift (← gets (current_actor actor_id))
  r ← lift (← gets (λ s. owned_by current (lookup id s.api_tokens)))
  modify (api_token_revoked current id r trace)

abbrev pub expired : Option ℕ → ℕ → Bool
expired none now = false
expired (some expires) now = leb expires now

-- The record of the token, with its id, when it has not expired.
unfoldable pub usable_api_token : String → ℕ → Identities → Option (String × ApiTokenRecord)
unfolding lookup
usable_api_token digest now s = elim (lookup digest s.api_token_by_digest) [
  | none ↦ none
  | some id ↦ elim (lookup id s.api_tokens) [
    | none ↦ none
    | some r ↦ if expired r.token.expires_at now then none else some (id, r)
  ]
]

unfoldable pub token_used : String → ApiTokenRecord → ℕ → Identities → Identities
unfolding insert
token_used id r now s = record s {
  api_tokens =
      insert id (record r { token = record r.token { last_used_at = some now } }) s.api_tokens;
}

-- `APITokenPrincipal`, without the name of the environment.
pub record ApiTokenPrincipal : Type 0 where
  pub user : User
  pub scopes : List String
  pub api_token_id : String

-- The refusal of an actor who is no longer active hides its reason.
abbrev pub as_required : Result User → Result User
as_required (ok u) = ok u
as_required (err p) = err auth_required

unfoldable pub authenticate_api_token : Platform → String → ℕ → Exec ApiTokenPrincipal
unfolding ◌>>=◌ token_digest usable_api_token current_actor token_used
authenticate_api_token p plain now = do
  found ← lift (or_problem (← gets (usable_api_token (token_digest p plain) now)) auth_required)
  user ← lift (← gets (λ s. as_required (current_actor found.1.user_id s)))
  modify (token_used found.0 found.1 now)
  pure (record { user = user; scopes = found.1.token.scopes; api_token_id = found.0 })

abbrev pub console_connection_ttl : ℕ
console_connection_ttl = minute

unfoldable pub console_issued : String → ConsolePrincipal → Identities → Identities
unfolding insert
console_issued digest principal s = record s {
  console_tokens = insert digest principal s.console_tokens;
}

-- The result is the time at which the token expires.
unfoldable pub issue_console_connection_token : Platform → String → String → String → ℕ → Exec ℕ
unfolding ◌>>=◌ token_digest authorize_server console_issued
issue_console_connection_token p server_id user_id plain now = do
  _ ← lift (← gets (authorize_server user_id server_id "servers.console"))
  let expires = now + console_connection_ttl
  let principal : ConsolePrincipal = record {
    user_id = user_id;
    server_id = server_id;
    expires_at = expires;
  }
  modify (console_issued (token_digest p plain) principal)
  pure expires

abbrev pub fresh_principal : Option ConsolePrincipal → ℕ → Result ConsolePrincipal
fresh_principal none now = err auth_required
fresh_principal (some c) now = if ltb now c.expires_at then ok c else err auth_required

abbrev pub as_forbidden : Result User → Result User
as_forbidden (ok u) = ok u
as_forbidden (err p) = err forbidden

unfoldable pub console_taken : String → Identities → Identities
unfolding remove
console_taken digest s = record s { console_tokens = remove digest s.console_tokens }

-- The token is gone whatever the answer is.
unfoldable pub consume_console_connection_token : Platform → String → ℕ → Exec ConsolePrincipal
unfolding ◌>>=◌ token_digest lookup console_taken authorize_server
consume_console_connection_token p plain now = do
  let digest = token_digest p plain
  found ← gets (λ s. lookup digest s.console_tokens)
  modify (console_taken digest)
  c ← lift (fresh_principal found now)
  _ ← lift (← gets (λ s. as_forbidden (authorize_server c.user_id c.server_id "servers.console" s)))
  pure c
