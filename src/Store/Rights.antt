-- ===== src/Store/Rights.antt =====
-- Who is authorized on a server.
use gu_gu_manager.Base.{
  ◌≡◌, ◌↔◌, refl, sym, subst, ◌∙◌, inl, inr, ◌⊎◌, String, true, some, arith, str_eq, eq_iff,
  contains, is_some, Bool-cases, Option-cases,
}
use gu_gu_manager.Base.Maps.{lookup}
use gu_gu_manager.Store.Types.{User, ServerMembership, Memory}
use gu_gu_manager.Store.Exec.{ok}
use gu_gu_manager.Store.Access.{
  has_role, current_actor, membership_of, authorize_member, authorize_server,
}

-- A user that is active, on a server that is there, as an administrator of the platform or by a
-- membership with the permission.
pub record IsEntitled (m : Memory) (actor server permission : String) (u : User) : Type 0 where
  pub known : lookup actor m.users ≡ some u
  pub active : u.status ≡ "active"
  pub there : is_some (lookup server m.servers) ≡ true
  pub by :
      (has_role u "platform_admin" ≡ true)
      ⊎ ((s : ServerMembership) × (membership_of m server actor ≡ some s)
          × (contains permission s.permissions ≡ true))

ok_same : (x u : User) → ok x ≡ ok u → x ≡ u
ok_same x u e = cc

module _ (m : Memory) (actor server permission : String) where
  member_by :
      (x u : User)
      → authorize_member m x actor server permission ≡ ok u
      → (x ≡ u)
        × ((has_role x "platform_admin" ≡ true)
            ⊎ ((s : ServerMembership) × (membership_of m server actor ≡ some s)
                × (contains permission s.permissions ≡ true)))
  unfolding authorize_member
  member_by x u e = elim (Bool-cases (has_role x "platform_admin")) [
    | inl admin ↦
        let answered : ok x ≡ ok u = rw (← e, authorize_member, admin) refl in
        (ok_same x u answered, inl admin)
    | inr plain ↦ elim (Option-cases (membership_of m server actor)) [
      | inl missing ↦ absurd (ground arith)
      | inr (s, found) ↦ elim (Bool-cases (contains permission s.permissions)) [
        | inl holds ↦
            let answered : ok x ≡ ok u = rw (← e, authorize_member, plain, found, holds) refl in
            (ok_same x u answered, inr (s, found, holds))
        | inr lacks ↦ absurd (ground arith)
      ]
    ]
  ]

  IsEntitled-of :
      (x u : User)
      → lookup actor m.users ≡ some x
      → str_eq x.status "active" ≡ true
      → is_some (lookup server m.servers) ≡ true
      → authorize_member m x actor server permission ≡ ok u
      → IsEntitled m actor server permission u
  IsEntitled-of x u known active there e =
      let (same, by) = member_by x u e in
      subst (IsEntitled m actor server permission) same (record {
        known = known;
        active = (eq_iff x.status "active").0 active;
        there = there;
        by = by;
      })

  answered_member :
      (x : User)
      → lookup actor m.users ≡ some x
      → str_eq x.status "active" ≡ true
      → is_some (lookup server m.servers) ≡ true
      → authorize_server m actor server permission ≡ authorize_member m x actor server permission
  unfolding authorize_server current_actor
  answered_member x known active there = elim (Option-cases (lookup server m.servers)) [
    | inl missing ↦ absurd (ground arith)
    | inr (s, found) ↦ rw (authorize_server, current_actor, known, active, found) refl
  ]

  IsEntitled-sound :
      (u : User)
      → authorize_server m actor server permission ≡ ok u
      → IsEntitled m actor server permission u
  unfolding authorize_server current_actor
  IsEntitled-sound u e = elim (Option-cases (lookup actor m.users)) [
    | inl unknown ↦ absurd (ground arith)
    | inr (x, known) ↦ elim (Bool-cases (str_eq x.status "active")) [
      | inr inactive ↦ absurd (ground arith)
      | inl active ↦ elim (Bool-cases (is_some (lookup server m.servers))) [
        | inr missing ↦ absurd (ground arith)
        | inl there ↦
            IsEntitled-of x u known active there (sym (answered_member x known active there) ∙ e)
      ]
    ]
  ]

  IsEntitled-complete :
      (u : User)
      → IsEntitled m actor server permission u
      → authorize_server m actor server permission ≡ ok u
  unfolding authorize_member
  IsEntitled-complete u v =
      answered_member u v.known ((eq_iff u.status "active").1 v.active) v.there ∙ elim v.by [
        | inl admin ↦ rw (authorize_member, admin) refl
        | inr (s, found, holds) ↦ elim (Bool-cases (has_role u "platform_admin")) [
          | inl admin ↦ rw (authorize_member, admin) refl
          | inr plain ↦ rw (authorize_member, plain, found, holds) refl
        ]
      ]

-- Authorization on a server for a permission answers with a user exactly if that is the user of the
-- identifier, it is active, the server is there, and the user is an administrator of the platform or
-- a member of the server with the permission.
pub authorize_server-IsEntitled :
    (m : Memory) (actor server permission : String) (u : User)
    → (authorize_server m actor server permission ≡ ok u) ↔ IsEntitled m actor server permission u
authorize_server-IsEntitled m actor server permission u =
    (IsEntitled-sound m actor server permission u, IsEntitled-complete m actor server permission u)
