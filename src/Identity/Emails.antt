-- ===== src/Identity/Emails.antt =====
-- The index of the addresses through any run of the identity calls.
use gu_gu_manager.Base.{
  ◌≡◌, ◌⊎◌, inl, inr, refl, subst, sym, ap, ◌∙◌, String, false, none, some, [], str_eq, arith,
  Bool-cases, eq_iff,
}
use gu_gu_manager.Base.{List, ◌∷◌}
use gu_gu_manager.Base.Maps.{Assoc, lookup, insert, lookup-insert}
use gu_gu_manager.Identity.State.{StoredUser, Identities, Platform}
use gu_gu_manager.Identity.Runs.{Step, perform, run, IsFresh, AreFresh}
use gu_gu_manager.Identity.Changes.{IsKeyed, Effect, perform-Effect}

-- Each user stands under its id, and the index has just the addresses of the users.
pub record IsConsistent (users : Assoc StoredUser) (emails : Assoc String) : Type 0 where
  pub keyed : IsKeyed users
  pub indexed :
      (email id : String)
      → lookup email emails ≡ some id
      → (u : StoredUser) × (lookup id users ≡ some u) × (u.user.email ≡ email)
  pub listed :
      (id : String) (u : StoredUser)
      → lookup id users ≡ some u
      → lookup u.user.email emails ≡ some id

-- A user that is put into the users, next to those that were there.
module _ (key : String) (new : StoredUser) (users : Assoc StoredUser) where
  inserted_cases :
      (id : String) (u : StoredUser)
      → lookup id (insert key new users) ≡ some u
      → ((key ≡ id) × (new ≡ u)) ⊎ ((str_eq key id ≡ false) × (lookup id users ≡ some u))
  inserted_cases id u found = elim (Bool-cases (str_eq key id)) [
    | inl here ↦ inl (ground (arith, eq_iff key id), ground (arith, lookup-insert key id new users))
    | inr there ↦ inr (there, ground (arith, lookup-insert key id new users))
  ]

  insert-IsKeyed : new.user.id ≡ key → IsKeyed users → IsKeyed (insert key new users)
  insert-IsKeyed same keyed id u found = elim (inserted_cases id u found) [
    | inl (here, is) ↦ ap (λ (x : StoredUser). x.user.id) (sym is) ∙ same ∙ here
    | inr (there, old) ↦ keyed id u old
  ]

module _ (users : Assoc StoredUser) (emails : Assoc String) (c : IsConsistent users emails) where
  module _ (u : StoredUser) (new : lookup u.user.id users ≡ none)
      (free : (users ≡ []) ⊎ (lookup u.user.email emails ≡ none)) where
    added_indexed :
        (email id : String)
        → lookup email (insert u.user.email u.user.id emails) ≡ some id
        → (v : StoredUser) × (lookup id (insert u.user.id u users) ≡ some v)
          × (v.user.email ≡ email)
    added_indexed email id found = elim (Bool-cases (str_eq u.user.email email)) [
      | inl here ↦ (
        u,
        ground (
          arith,
          lookup-insert u.user.email email u.user.id emails,
          lookup-insert u.user.id id u users,
          eq_iff u.user.id id,
        ),
        ground (arith, eq_iff u.user.email email),
      )
      | inr there ↦
          let (v, known, named) =
            c.indexed email id
              (ground (arith, lookup-insert u.user.email email u.user.id emails)) in
          (v, ground (arith, lookup-insert u.user.id id u users, eq_iff u.user.id id), named)
    ]

    not-taken :
        (id : String) (v : StoredUser)
        → lookup id users ≡ some v
        → str_eq u.user.email v.user.email ≡ false
    unfolding lookup
    not-taken id v known =
        ground (arith, free, c.listed id v known, eq_iff u.user.email v.user.email)

    added_listed :
        (id : String) (v : StoredUser)
        → lookup id (insert u.user.id u users) ≡ some v
        → lookup v.user.email (insert u.user.email u.user.id emails) ≡ some id
    added_listed id v found = elim (inserted_cases u.user.id u users id v found) [
      | inl (here, is) ↦
          subst
            (λ (x : StoredUser).
              lookup x.user.email (insert u.user.email u.user.id emails) ≡ some id)
            is
            (ground (
              arith,
              lookup-insert u.user.email u.user.email u.user.id emails,
              eq_iff u.user.email u.user.email,
            ))
      | inr (there, old) ↦ ground (
        arith,
        lookup-insert u.user.email v.user.email u.user.id emails,
        not-taken id v old,
        c.listed id v old,
      )
    ]

    added-IsConsistent :
        IsConsistent (insert u.user.id u users) (insert u.user.email u.user.id emails)
    added-IsConsistent = record {
      keyed = insert-IsKeyed u.user.id u users refl c.keyed;
      indexed = added_indexed;
      listed = added_listed;
    }

  module _ (id : String) (u u' : StoredUser) (known : lookup id users ≡ some u)
      (alike : (u'.user.id ≡ u.user.id) × (u'.user.email ≡ u.user.email)) where
    changed_indexed :
        (email key : String)
        → lookup email emails ≡ some key
        → (v : StoredUser) × (lookup key (insert id u' users) ≡ some v) × (v.user.email ≡ email)
    changed_indexed email key found =
        let (v, there, named) = c.indexed email key found in
        elim (Bool-cases (str_eq id key)) [
          | inl here ↦ (
            u',
            ground (arith, lookup-insert id key u' users),
            ground (arith, eq_iff id key, alike),
          )
          | inr other ↦ (v, ground (arith, lookup-insert id key u' users), named)
        ]

    changed_listed :
        (key : String) (v : StoredUser)
        → lookup key (insert id u' users) ≡ some v
        → lookup v.user.email emails ≡ some key
    changed_listed key v found = elim (inserted_cases id u' users key v found) [
      | inl (here, is) ↦ ground (arith, c.listed id u known, alike)
      | inr (there, old) ↦ c.listed key v old
    ]

    changed-IsConsistent : IsConsistent (insert id u' users) emails
    changed-IsConsistent = record {
      keyed = insert-IsKeyed id u' users (alike.0 ∙ c.keyed id u known) c.keyed;
      indexed = changed_indexed;
      listed = changed_listed;
    }

abbrev pub AreConsistent : Identities → Type 0
AreConsistent s = IsConsistent s.users s.user_by_email

Effect-AreConsistent : {s s' : Identities} → Effect s s' → AreConsistent s → AreConsistent s'
Effect-AreConsistent {s} {s'} (Effect.same (users, emails)) c = rw (users, emails) c
Effect-AreConsistent {s} {s'} (Effect.added u new free users emails) c =
    rw (users, emails) (added-IsConsistent s.users s.user_by_email c u new free)
Effect-AreConsistent {s} {s'} (Effect.changed id u u' known alike guarded users emails) c =
    rw (users, emails) (changed-IsConsistent s.users s.user_by_email c id u u' known alike)

pub step-AreConsistent :
    (p : Platform) (step : Step) (s : Identities)
    → IsFresh p step s
    → AreConsistent s
    → AreConsistent (perform p step s)
step-AreConsistent p step s new c = Effect-AreConsistent (perform-Effect p step s c.keyed new) c

-- Through any run of the calls whose new ids are fresh, each user stands under its id, and the
-- index of the addresses leads from each address to the user that has it and from nothing else.
pub run-AreConsistent :
    (p : Platform) (steps : List Step) (s : Identities)
    → AreFresh p steps s
    → AreConsistent s
    → AreConsistent (run p steps s)
run-AreConsistent p [] s fresh c = c
run-AreConsistent p (step ∷ steps) s fresh c =
    run-AreConsistent p steps (perform p step s) fresh.1 (step-AreConsistent p step s fresh.0 c)
