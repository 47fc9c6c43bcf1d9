-- ===== src/Identity/Once.antt =====
-- What can be done once: the setup of the first administrator, and the use of a console token.
use gu_gu_manager.Base.{ℕ, ◌≡◌, ◌≢◌, inl, inr, refl, String, false, none, List, [], ◌∷◌, arith}
use gu_gu_manager.Base.Maps.{Assoc, lookup, insert}
use gu_gu_manager.Base.Calls.{ok, ◌>>=◌, Result-cases}
use gu_gu_manager.Identity.State.{
  User, StoredUser, Identities, Platform, token_digest, record_audit,
}
use gu_gu_manager.Identity.Names.{normalize_email, validate_display_name, validate_password}
use gu_gu_manager.Identity.Users.{
  no_one, SetupAdminInput, validate_setup, finish_setup, setup_admin, admin_added, add_user,
}
use gu_gu_manager.Identity.Runs.{Step, set_up, perform, run, AreFresh}
use gu_gu_manager.Identity.Changes.{Effect, perform-Effect, validate_setup-ok}
use gu_gu_manager.Identity.Emails.{AreConsistent, step-AreConsistent}

insert-some_one :
    (id : String) (u : StoredUser) (users : Assoc StoredUser) → no_one (insert id u users) ≡ false
unfolding insert
insert-some_one id u [] = refl
insert-some_one id u ((k, v) ∷ users) = ground arith

Effect-some_one :
    {s s' : Identities} → Effect s s' → no_one s.users ≡ false → no_one s'.users ≡ false
Effect-some_one {s} {s'} (Effect.same (users, _)) h = rw users h
Effect-some_one {s} {s'} (Effect.added u new free users emails) h =
    rw users (insert-some_one u.user.id u s.users)
Effect-some_one {s} {s'} (Effect.changed id u u' known alike guarded users emails) h =
    rw users (insert-some_one id u' s.users)

run-some_one :
    (p : Platform) (steps : List Step) (s : Identities)
    → AreFresh p steps s
    → AreConsistent s
    → no_one s.users ≡ false
    → no_one (run p steps s).users ≡ false
run-some_one p [] s fresh c h = h
run-some_one p (step ∷ steps) s fresh c h =
    run-some_one p steps (perform p step s) fresh.1 (step-AreConsistent p step s fresh.0 c)
      (Effect-some_one (perform-Effect p step s c.keyed fresh.0) h)

setup_admin-first :
    (p : Platform) (input : SetupAdminInput) (id salt : String) (first second : ℕ) (s : Identities)
    (u : User)
    → (setup_admin p input id salt first second s).0 ≡ ok u
    → s.users ≡ []
unfolding setup_admin ◌>>=◌
setup_admin-first p input id salt first second s u e =
    elim (Result-cases (normalize_email p input.email)) [
      | inr (q, odd) ↦ absurd (ground arith)
      | inl (email, plain) ↦ elim (Result-cases (validate_display_name input.display_name)) [
        | inr (q, odd) ↦ absurd (ground arith)
        | inl (name, short) ↦ elim (Result-cases (validate_password input.password)) [
          | inr (q, poor) ↦ absurd (ground arith)
          | inl (x, good) ↦
              elim (Result-cases (validate_setup (token_digest p input.bootstrap_token) first s)) [
                | inr (q, refused) ↦ absurd (ground arith)
                | inl (y, accepted) ↦
                    validate_setup-ok (token_digest p input.bootstrap_token) first s y accepted
              ]
        ]
      ]
    ]

finish_setup-some_one :
    (id email name phc provided : String) (now : ℕ) (s : Identities) (u : User)
    → (finish_setup id email name phc provided now s).0 ≡ ok u
    → no_one (finish_setup id email name phc provided now s).1.users ≡ false
unfolding finish_setup ◌>>=◌ admin_added add_user record_audit
finish_setup-some_one id email name phc provided now s u e =
    elim (Result-cases (validate_setup provided now s)) [
      | inr (q, refused) ↦ absurd (ground arith)
      | inl (x, accepted) ↦ rw accepted (insert-some_one id _ s.users)
    ]

-- Once the writing section of a setup has added an administrator to consistent users, no setup
-- succeeds after any run of the calls with fresh ids: not with the same bootstrap token, and with
-- no other input.
pub setup_once :
    (p : Platform) (id email name phc provided : String) (now : ℕ) (s : Identities) (u : User)
    (steps : List Step)
    → AreConsistent s
    → lookup id s.users ≡ none
    → (finish_setup id email name phc provided now s).0 ≡ ok u
    → AreFresh p steps (finish_setup id email name phc provided now s).1
    → (input : SetupAdminInput) (id' salt : String) (first second : ℕ) (v : User)
    → (setup_admin p input id' salt first second
        (run p steps (finish_setup id email name phc provided now s).1)).0
      ≢ ok v
setup_once p id email name phc provided now s u steps c new e fresh input id' salt first second v
      again =
    let t = (finish_setup id email name phc provided now s).1 in
    let kept =
      run-some_one p steps t fresh
        (step-AreConsistent p (set_up id email name phc provided now) s new c)
        (finish_setup-some_one id email name phc provided now s u e) in
    let none_left = setup_admin-first p input id' salt first second (run p steps t) v again in
    absurd (ground (arith, kept, none_left))
