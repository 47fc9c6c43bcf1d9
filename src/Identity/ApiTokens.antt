-- ===== src/Identity/ApiTokens.antt =====
-- The life of an API token: created, used and revoked.
use gu_gu_manager.Base.{
  ℕ, ◌≡◌, inl, inr, refl, ap, subst, sym, ◌∙◌, String, false, none, some, List, str_eq, arith,
  str_eq_refl,
}
use gu_gu_manager.Base.Maps.{
  IsDistinct, insert-IsDistinct, lookup, insert, lookup-insert_same, drop_values-gone,
}
use gu_gu_manager.Base.Calls.{Result, ok, err, ◌>>=◌, Result-cases}
use gu_gu_manager.Identity.State.{User, ApiToken, Identities, Platform, token_digest, record_audit}
use gu_gu_manager.Identity.Names.{normalize_api_token_input}
use gu_gu_manager.Identity.Access.{current_actor, auth_required}
use gu_gu_manager.Identity.Changes.{IsKeyed}
use gu_gu_manager.Identity.Held.{current_actor-known}
use gu_gu_manager.Identity.Tokens.{
  CreateApiTokenInput, new_api_token, create_api_token, finish_create_api_token, api_token_created,
  api_token_revoked, owned_by, revoke_api_token, usable_api_token, expired, authenticate_api_token,
}

module _ (p : Platform) (input : CreateApiTokenInput) (actor plain id trace : String) (now : ℕ)
    (s : Identities) where
  created_cases :
      (token : ApiToken)
      → (create_api_token p input actor plain id trace now s).0 ≡ ok token
      → (named : String × List String) × (u : User) × (current_actor actor s ≡ ok u)
        × (token ≡ new_api_token id named input.expires_at now)
        × ((create_api_token p input actor plain id trace now s).1
            ≡ api_token_created u token (token_digest p plain) trace s)
  unfolding create_api_token finish_create_api_token ◌>>=◌
  created_cases token e =
      elim (Result-cases (normalize_api_token_input input.name input.scopes input.expires_at now)) [
        | inr (q, odd) ↦ absurd (ground arith)
        | inl (named, good) ↦ elim (Result-cases (current_actor actor s)) [
          | inr (q, refused) ↦ absurd (ground arith)
          | inl (u, known) ↦
              let is : new_api_token id named input.expires_at now ≡ token =
                ground (arith, good, known) in
              (
                named,
                u,
                known,
                sym is,
                rw (good, known)
                    (ap (λ (t : ApiToken). api_token_created u t (token_digest p plain) trace s)
                      is),
              )
        ]
      ]

module _ (p : Platform) (plain trace : String) (u : User) (token : ApiToken) (s : Identities) where
  usable_created :
      (later : ℕ)
      → expired token.expires_at later ≡ false
      → usable_api_token
          (token_digest p plain)
          later
          (api_token_created u token (token_digest p plain) trace s)
        ≡ some (token.id, record { token = token; user_id = u.id })
  unfolding usable_api_token api_token_created record_audit
  usable_created later fresh = ground (
    arith,
    lookup-insert_same (token_digest p plain) token.id s.api_token_by_digest,
    lookup-insert_same token.id (record { token = token; user_id = u.id }) s.api_tokens,
  )

  current_created :
      (actor : String)
      → current_actor actor (api_token_created u token (token_digest p plain) trace s)
        ≡ current_actor actor s
  unfolding current_actor api_token_created record_audit
  current_created actor = refl

  authenticate_created :
      (later : ℕ)
      → expired token.expires_at later ≡ false
      → current_actor u.id s ≡ ok u
      → (authenticate_api_token p plain later
          (api_token_created u token (token_digest p plain) trace s)).0
        ≡ ok (record { user = u; scopes = token.scopes; api_token_id = token.id })
  unfolding authenticate_api_token ◌>>=◌
  authenticate_created later fresh known =
      rw (usable_created later fresh, current_created u.id, known) refl

  owned_created :
      owned_by u
        (lookup token.id (api_token_created u token (token_digest p plain) trace s).api_tokens)
      ≡ ok (record { token = token; user_id = u.id })
  unfolding api_token_created record_audit
  owned_created =
      rw
        (
          lookup-insert_same token.id (record { token = token; user_id = u.id }) s.api_tokens,
          str_eq_refl u.id,
        )
        refl

  revoke_created :
      (trace' : String)
      → current_actor u.id s ≡ ok u
      → revoke_api_token token.id u.id trace'
          (api_token_created u token (token_digest p plain) trace s)
        ≡ (
          ok tt,
          api_token_revoked u token.id
              (record { token = token; user_id = u.id })
              trace'
              (api_token_created u token (token_digest p plain) trace s),
        )
  unfolding revoke_api_token ◌>>=◌
  revoke_created trace' known = rw (current_created u.id, known, owned_created) refl

  -- A token that is revoked is usable no longer.
  unusable_revoked :
      IsDistinct s.api_token_by_digest
      → (trace' : String) (later : ℕ)
      → usable_api_token (token_digest p plain) later (
          api_token_revoked u token.id
            (record { token = token; user_id = u.id })
            trace'
            (api_token_created u token (token_digest p plain) trace s))
        ≡ none
  unfolding usable_api_token api_token_revoked api_token_created record_audit
  unusable_revoked distinct trace' later =
      let digest = token_digest p plain in
      rw
        (
          drop_values-gone (λ held. str_eq held token.id) digest
              (insert digest token.id s.api_token_by_digest) token.id
              (insert-IsDistinct digest token.id s.api_token_by_digest distinct)
              (lookup-insert_same digest token.id s.api_token_by_digest) (str_eq_refl token.id),
          usable_api_token,
        )
        refl

  authenticate_revoked :
      IsDistinct s.api_token_by_digest
      → (trace' : String) (later : ℕ)
      → (authenticate_api_token p plain later (
          api_token_revoked u token.id
            (record { token = token; user_id = u.id })
            trace'
            (api_token_created u token (token_digest p plain) trace s))).0
        ≡ err auth_required
  unfolding authenticate_api_token ◌>>=◌
  authenticate_revoked distinct trace' later = rw (unusable_revoked distinct trace' later) refl

module _ (p : Platform) (input : CreateApiTokenInput) (actor plain id trace : String) (now : ℕ)
    (s : Identities) where
  -- What holds of a token in the state `t` in which it was created.
  abbrev pub HasLifetime : ApiToken → ℕ → String → Identities → Type 0
  HasLifetime token later trace' t =
      ((u : User) × (current_actor actor s ≡ ok u)
        × ((authenticate_api_token p plain later t).0
            ≡ ok (record { user = u; scopes = token.scopes; api_token_id = token.id })))
      × ((revoke_api_token token.id actor trace' t).0 ≡ ok tt)
      × ((authenticate_api_token p plain later (revoke_api_token token.id actor trace' t).1).0
          ≡ err auth_required)

  lifetime_created :
      IsKeyed s.users
      → IsDistinct s.api_token_by_digest
      → (u : User) (token : ApiToken) (later : ℕ) (trace' : String) → current_actor actor s ≡ ok u
      → expired token.expires_at later ≡ false
      → HasLifetime token later trace' (api_token_created u token (token_digest p plain) trace s)
  lifetime_created keyed distinct u token later trace' known fresh =
      let (v, found, is, active) = current_actor-known s actor u known in
      let own : u.id ≡ actor = ap (λ (x : User). x.id) (sym is) ∙ keyed actor v found in
      let self : current_actor u.id s ≡ ok u = ap (λ a. current_actor a s) own ∙ known in
      let t = api_token_created u token (token_digest p plain) trace s in
      let revoked =
        ap (λ a. revoke_api_token token.id a trace' t) (sym own)
        ∙ revoke_created p plain trace u token s trace' self in
      (
        (u, known, authenticate_created p plain trace u token s later fresh self),
        ap (λ (r : Result (Unit {0}) × Identities). r.0) revoked,
        rw revoked (authenticate_revoked p plain trace u token s distinct trace' later),
      )

  -- An API token that is created authenticates the user who created it, with the scopes it was
  -- created with, until it expires; its user can revoke it, and then it authenticates no one. Users
  -- stand under their ids, and no digest stands twice.
  pub api_token_lifetime :
      IsKeyed s.users
      → IsDistinct s.api_token_by_digest
      → (token : ApiToken) (later : ℕ) (trace' : String)
      → (create_api_token p input actor plain id trace now s).0 ≡ ok token
      → expired token.expires_at later ≡ false
      → HasLifetime token later trace' (create_api_token p input actor plain id trace now s).1
  api_token_lifetime keyed distinct token later trace' e fresh =
      let (named, u, known, is, state) = created_cases p input actor plain id trace now s token e in
      subst (HasLifetime token later trace') (sym state)
        (lifetime_created keyed distinct u token later trace' known fresh)
