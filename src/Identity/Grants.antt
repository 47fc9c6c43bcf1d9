-- ===== src/Identity/Grants.antt =====
-- The sets of roles, permissions and scopes that are accepted, and what a member may do by them.
use gu_gu_manager.Base.{
  ◌≡◌, inl, inr, refl, subst, sym, ◌∙◌, String, Bool, true, false, ◌||◌, List, [], ◌∷◌, ◌++◌, map,
  str_eq, str_eq_refl, eq_iff, All, arith, Bool-cases, Option-cases, if◌then◌else◌, contains,
  trim_space,
}
use gu_gu_manager.Base.Maps.{lookup}
use gu_gu_manager.Base.Calls.{Result, ok, err, Result-cases}
use gu_gu_manager.Identity.State.{Identities}
use gu_gu_manager.Identity.Names.{
  collect, normalize_permissions, sort_texts, no_values, all_server_permissions,
  allowed_server_permissions,
}
use gu_gu_manager.Identity.Sorting.{
  IsOrdered, AreDistinct, contains-sort_texts, sort_texts-IsOrdered,
}
use gu_gu_manager.Identity.Access.{
  is_active, has_role, current_actor, membership_of, allow_member, allow_actor, authorize_server,
  permissions_of, effective_server_permissions,
}

contains-append :
    (x : String) (xs : List String) (y : String)
    → contains x (xs ++ y ∷ []) ≡ (contains x xs || str_eq y x)
unfolding contains
contains-append x [] y = ground arith
contains-append x (z ∷ xs) y = ground (arith, contains-append x xs y)

append-AreDistinct :
    (xs : List String) (y : String)
    → contains y xs ≡ false
    → AreDistinct xs
    → AreDistinct (xs ++ y ∷ [])
unfolding contains
append-AreDistinct [] y new d = (refl, tt)
append-AreDistinct (z ∷ xs) y new d = (
  ground (arith, contains-append z xs y, eq_iff z y, eq_iff y z),
  append-AreDistinct xs y (ground arith) d.1,
)

abbrev add : List String → String → List String
add kept name = if contains name kept then kept else kept ++ name ∷ []

contains-add :
    (kept : List String) (name x : String)
    → contains x (add kept name) ≡ (contains x kept || str_eq name x)
contains-add kept name x = ground (arith, contains-append x kept name, eq_iff name x)

add-AreDistinct :
    (kept : List String) (name : String) → AreDistinct kept → AreDistinct (add kept name)
add-AreDistinct kept name d = elim (Bool-cases (contains name kept)) [
  | inl old ↦ rw old d
  | inr new ↦ rw new (append-AreDistinct kept name new d)
]

module _ (allowed : List String) where
  collect-ok :
      (kept values result : List String) (v : String)
      → collect allowed kept (v ∷ values) ≡ ok result
      → (contains (trim_space v) allowed ≡ true)
        × (collect allowed (add kept (trim_space v)) values ≡ ok result)
  unfolding collect
  collect-ok kept values result v e = elim (Bool-cases (contains (trim_space v) allowed)) [
    | inl known ↦ (known, ground arith)
    | inr odd ↦ absurd (ground arith)
  ]

  collect-AreDistinct :
      (kept values result : List String)
      → collect allowed kept values ≡ ok result
      → AreDistinct kept
      → AreDistinct result
  unfolding collect
  collect-AreDistinct kept [] result e d = subst AreDistinct (cc) d
  collect-AreDistinct kept (v ∷ values) result e d =
      collect-AreDistinct (add kept (trim_space v)) values result
        (collect-ok kept values result v e).1 (add-AreDistinct kept (trim_space v) d)

  collect-contains :
      (x : String) (kept values result : List String)
      → collect allowed kept values ≡ ok result
      → contains x result ≡ (contains x kept || contains x (map trim_space values))
  unfolding contains collect
  collect-contains x kept [] result e = ground arith
  collect-contains x kept (v ∷ values) result e = ground (
    arith,
    collect-contains x (add kept (trim_space v)) values result
        (collect-ok kept values result v e).1,
    contains-add kept (trim_space v) x,
  )

  collect-allowed :
      (x : String) (kept values result : List String)
      → collect allowed kept values ≡ ok result
      → contains x (map trim_space values) ≡ true
      → contains x allowed ≡ true
  unfolding contains
  collect-allowed x kept [] result e h = absurd (ground arith)
  collect-allowed x kept (v ∷ values) result e h = ground (
    arith,
    collect-allowed x (add kept (trim_space v)) values result (collect-ok kept values result v e).1,
    (collect-ok kept values result v e).0,
    eq_iff (trim_space v) x,
  )

All-of-contains :
    (P : String → Type 0) (ts : List String)
    → ((x : String) → contains x ts ≡ true → P x)
    → All P ts
unfolding contains
All-of-contains P [] f = tt
All-of-contains P (t ∷ ts) f =
    (f t (rw (str_eq_refl t) refl), All-of-contains P ts (λ x h. f x (ground (arith, h))))

-- The permissions that are stored for a member stand in the order of texts with none twice, are
-- just
-- the trimmed permissions that were given, are all permissions that there are, and have the right
-- to
-- read the server among them.
pub normalize_permissions-IsOrdered :
    (values kept : List String) (x : String)
    → normalize_permissions values ≡ ok kept
    → IsOrdered kept
      × (contains x kept ≡ contains x (map trim_space values))
      × All (λ y. contains y allowed_server_permissions ≡ true) kept
      × (contains "servers.read" kept ≡ true)
unfolding normalize_permissions
normalize_permissions-IsOrdered values kept x e = elim (Bool-cases (no_values values)) [
  | inl empty ↦ absurd (ground arith)
  | inr given ↦ elim (Result-cases (collect allowed_server_permissions [] values)) [
    | inr (q, odd) ↦ absurd (ground arith)
    | inl (raw, good) ↦ elim (Bool-cases (contains "servers.read" (sort_texts raw))) [
      | inr blind ↦ absurd (ground arith)
      | inl reads ↦
          let is : sort_texts raw ≡ kept = ground (arith, good, reads) in
          let same = λ (y : String).
            contains-sort_texts y raw
            ∙ collect-contains allowed_server_permissions y [] values raw good in
          subst
            (λ k.
              IsOrdered k
              × (contains x k ≡ contains x (map trim_space values))
              × All (λ y. contains y allowed_server_permissions ≡ true) k
              × (contains "servers.read" k ≡ true))
            is
            (
              sort_texts-IsOrdered raw
                  (collect-AreDistinct allowed_server_permissions [] values raw good tt),
              same x,
              All-of-contains _ (sort_texts raw) (λ y h.
                  collect-allowed allowed_server_permissions y [] values raw good
                    (sym (same y) ∙ h)),
              reads,
            )
    ]
  ]
]

abbrev pub is_ok {ℓ} : {A : Type ℓ} → Result A → Bool
is_ok (ok a) = true
is_ok (err p) = false

contains-all_server_permissions :
    (x : String) → contains x all_server_permissions ≡ contains x allowed_server_permissions
unfolding all_server_permissions
contains-all_server_permissions x = contains-sort_texts x allowed_server_permissions

-- The permissions that a user is shown for a server are just those for which the store lets the
-- user act on the server, among the permissions that there are.
pub effective-authorize :
    (user_id server_id : String) (s : Identities) (shown : List String) (permission : String)
    → effective_server_permissions user_id server_id s ≡ ok shown
    → contains permission allowed_server_permissions ≡ true
    → is_ok (authorize_server user_id server_id permission s) ≡ contains permission shown
unfolding effective_server_permissions permissions_of authorize_server current_actor allow_actor
    allow_member
effective-authorize user_id server_id s shown permission e known =
    elim (Option-cases (lookup user_id s.users)) [
      | inl missing ↦ absurd (ground arith)
      | inr (u, found) ↦ elim (Bool-cases (is_active u)) [
        | inr idle ↦ absurd (ground arith)
        | inl active ↦ elim (Bool-cases (contains server_id s.servers)) [
          | inr nowhere ↦ absurd (ground arith)
          | inl there ↦ elim (Bool-cases (has_role u.user "platform_admin")) [
            | inl admin ↦
                let is : all_server_permissions ≡ shown =
                  ground (arith, found, active, there, admin) in
                subst
                  (λ k.
                    is_ok (authorize_server user_id server_id permission s) ≡ contains permission k)
                  is
                  (ground (
                    arith,
                    found,
                    active,
                    there,
                    admin,
                    contains-all_server_permissions permission,
                  ))
            | inr plain ↦ elim (Option-cases (membership_of server_id user_id s)) [
              | inl stranger ↦ absurd (ground arith)
              | inr (m, member) ↦ elim (Bool-cases (contains "servers.read" m.permissions)) [
                | inr blind ↦ absurd (ground arith)
                | inl reads ↦
                    let is : sort_texts m.permissions ≡ shown =
                      ground (arith, found, active, there, plain, member, reads) in
                    subst
                      (λ k.
                        is_ok (authorize_server user_id server_id permission s)
                        ≡ contains permission k)
                      is
                      (ground (
                        arith,
                        found,
                        active,
                        there,
                        plain,
                        member,
                        contains-sort_texts permission m.permissions,
                      ))
              ]
            ]
          ]
        ]
      ]
    ]
