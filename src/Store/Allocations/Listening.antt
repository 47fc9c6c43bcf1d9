-- ===== src/Store/Allocations/Listening.antt =====
-- The requests on allocations keep the endpoints disjoint.
use gu_gu_manager.Base.{
  ℕ, ◌≡◌, refl, sym, ap, subst, ◌∙◌, inl, inr, String, Bool, true, false, ◌||◌, none, some, List,
  [], ◌∷◌, arith, str_eq, eq_iff, contains, length, leb, Bool-cases, Option-cases, if◌then◌else◌,
}
use gu_gu_manager.Base.Maps.{Assoc, lookup, insert, remove, lookup-remove}
use gu_gu_manager.Store.Types.{Allocation, Server, Memory}
use gu_gu_manager.Store.Allocations.Mutations.{
  CreateAllocationInput, order_of, is_none, no_id, is_taken, mark_primary, new_allocation,
  add_allocation, create_mutation, set_primary_mutation, exclude, delete_mutation,
}
use gu_gu_manager.Store.Allocations.Places.{
  Place, place, place_in, place-insert, IsSameEndpoint, mark_primary-place, is_taken-IsSameEndpoint,
  not_taken,
}
use gu_gu_manager.Store.Allocations.Endpoints.{
  IsDisjoint, order-AreThere, replaced-IsDisjoint, added-IsDisjoint, order_of-insert,
}

some_of_place :
    (id : String) (m : Assoc Allocation) (p : Place)
    → place_in (lookup id m) ≡ some p
    → (a : Allocation) × (lookup id m ≡ some a) × (place a ≡ p)
some_of_place id m p e = elim (Option-cases (lookup id m)) [
  | inl absent ↦ absurd (ground arith)
  | inr (a, there) ↦
      let found : some (place a) ≡ some p = ap place_in (sym there) ∙ e in (a, there, cc)
]

-- An endpoint that is not taken is that of no allocation.
untaken :
    (server : Server) (input : CreateAllocationInput) (b : Allocation) (m : Assoc Allocation)
    → b.node_id ≡ server.node_id
    → b.bind_ip ≡ input.bind_ip
    → b.port ≡ input.port
    → b.protocol ≡ input.protocol
    → is_taken server input m ≡ false
    → (j : String) (q : Place) → place_in (lookup j m) ≡ some q
    → ¬ IsSameEndpoint q (place b)
untaken server input b m node ip port protocol free j q at same =
    let (a, there, of) = some_of_place j m q at in
    let taken =
      is_taken-IsSameEndpoint server input j a m (place b) free there node ip port protocol
        (subst (λ x. IsSameEndpoint x (place b)) (sym of) same) in
    let other = not_taken server input j a m free there in ground arith

module _ (server_id : String) (now : ℕ) (m : Memory) (v : IsDisjoint m) where
  marked_place :
      (test : String → Bool) (j : String)
      → place_in (lookup j (mark_primary test now (order_of server_id m) m.allocations))
        ≡ place_in (lookup j m.allocations)
  marked_place test j =
      mark_primary-place test now (order_of server_id m) m.allocations j
        (order-AreThere server_id m v)

  -- The memory once no allocation of the server is primary.
  cleared-IsDisjoint :
      (test : String → Bool)
      → IsDisjoint
          (record m { allocations = mark_primary test now (order_of server_id m) m.allocations })
  cleared-IsDisjoint test =
      replaced-IsDisjoint m (mark_primary test now (order_of server_id m) m.allocations)
        (marked_place test) v

  marked_none :
      (test : String → Bool) (id : String)
      → lookup id m.allocations ≡ none
      → lookup id (mark_primary test now (order_of server_id m) m.allocations) ≡ none
  marked_none test id fresh =
      let marked = mark_primary test now (order_of server_id m) m.allocations in
      let none_there : place_in (lookup id marked) ≡ none =
        marked_place test id ∙ ap place_in fresh in
      elim (Option-cases (lookup id marked)) [
        | inl absent ↦ absent
        | inr (a, there) ↦
            let some_there : some (place a) ≡ none = ap place_in (sym there) ∙ none_there in
            absurd (ground arith)
      ]

  primary-IsDisjoint :
      (id : String) (input : CreateAllocationInput) (server : Server)
      → lookup id m.allocations ≡ none
      → is_taken server input m.allocations ≡ false
      → IsDisjoint (add_allocation server_id now id input true server m)
  unfolding add_allocation new_allocation order_of
  primary-IsDisjoint id input server fresh free =
      added-IsDisjoint
        (record m { allocations = mark_primary no_id now (order_of server_id m) m.allocations }) id
        server_id (new_allocation server_id now id input true server) (marked_none no_id id fresh)
        refl
        (λ j q at.
          untaken server input (new_allocation server_id now id input true server) m.allocations
            refl refl refl refl free j q (sym (marked_place no_id j) ∙ at))
        (cleared-IsDisjoint no_id)

  primary_place :
      (id j : String) (a : Allocation)
      → lookup id m.allocations ≡ some a
      → place_in (
          lookup j (
            insert id
              (record a { primary = true; updated_at = now })
              (mark_primary (λ k. str_eq k id) now (order_of server_id m) m.allocations)))
        ≡ place_in (lookup j m.allocations)
  primary_place id j a there = elim (Bool-cases (str_eq id j)) [
    | inl self ↦
        rw (place-insert, self)
          (ap place_in (sym there)
            ∙ ap (λ k. place_in (lookup k m.allocations)) ((eq_iff id j).0 self))
    | inr other ↦ rw (place-insert, other) (marked_place (λ k. str_eq k id) j)
  ]

  pub create_mutation-IsDisjoint :
      (id : String) (input : CreateAllocationInput) (server : Server)
      → lookup id m.allocations ≡ none
      → IsDisjoint (create_mutation server_id now id input server m).1
  unfolding create_mutation add_allocation new_allocation
  create_mutation-IsDisjoint id input server fresh =
      elim (Bool-cases (is_taken server input m.allocations)) [
        | inl taken ↦ rw (create_mutation, taken) v
        | inr free ↦ elim (Bool-cases (input.primary || is_none (order_of server_id m))) [
          | inl first ↦
              rw (create_mutation, free, first, add_allocation)
                (primary-IsDisjoint id input server fresh free)
          | inr later ↦
              rw (create_mutation, free, later, add_allocation)
                (added-IsDisjoint m id server_id _ fresh refl
                  (untaken server input (new_allocation server_id now id input false server)
                    m.allocations refl refl refl refl free)
                  v)
        ]
      ]

  pub set_primary_mutation-IsDisjoint :
      (id : String) (server : Server)
      → IsDisjoint (set_primary_mutation server_id now id server m).1
  unfolding set_primary_mutation
  set_primary_mutation-IsDisjoint id server = elim (Option-cases (lookup id m.allocations)) [
    | inl absent ↦ rw (set_primary_mutation, absent) v
    | inr (a, there) ↦ elim (Bool-cases (str_eq a.server_id server_id)) [
      | inr other ↦ rw (set_primary_mutation, there, other) v
      | inl own ↦
          rw (set_primary_mutation, there, own)
            (replaced-IsDisjoint m _ (λ j. primary_place id j a there) v)
    ]
  ]

contains-exclude :
    (k id : String) (xs : List String)
    → contains k (exclude id xs) ≡ true
    → (contains k xs ≡ true) × (str_eq id k ≡ false)
unfolding contains exclude
contains-exclude k id [] r = absurd (ground arith)
contains-exclude k id (x ∷ xs) r =
    ground (arith, contains-exclude k id xs, eq_iff x k, eq_iff x id, eq_iff id k)

place-remove :
    (id j : String) (p : Place) (m : Assoc Allocation)
    → place_in (lookup j (remove id m)) ≡ some p
    → place_in (lookup j m) ≡ some p
place-remove id j p m e = elim (Bool-cases (str_eq id j)) [
  | inl self ↦
      let gone : none ≡ some p = rw (← e, lookup-remove, self) refl in absurd (ground arith)
  | inr other ↦
      let kept : place_in (lookup j m) ≡ place_in (lookup j (remove id m)) =
        rw (lookup-remove, other) refl in
      kept ∙ e
]

module _ (server_id id : String) (m : Memory) (v : IsDisjoint m) (a : Allocation)
    (there : lookup id m.allocations ≡ some a) (own : a.server_id ≡ server_id) where
  -- The memory without an allocation of the server.
  abbrev removed : Memory
  removed = record m {
    allocations = remove id m.allocations;
    allocation_order = insert server_id (exclude id (order_of server_id m)) m.allocation_order;
  }

  still_owned :
      (s k : String)
      → contains k (order_of s m) ≡ true
      → str_eq id k ≡ false
      → (p : Place) × (place_in (lookup k removed.allocations) ≡ some p) × (p.server ≡ s)
  still_owned s k r other = let (p, at, of) = v.owned s k r in (p, rw (lookup-remove, other) at, of)

  -- An allocation of another server is another allocation.
  elsewhere_other :
      (s k : String)
      → str_eq server_id s ≡ false
      → contains k (order_of s m) ≡ true
      → str_eq id k ≡ false
  elsewhere_other s k other r =
      let (p, at, of) = v.owned s k r in
      elim (Bool-cases (str_eq id k)) [
        | inr no' ↦ no'
        | inl self ↦
            let here : some (place a) ≡ some p =
              ap place_in (sym there)
              ∙ ap (λ j. place_in (lookup j m.allocations)) ((eq_iff id k).0 self)
              ∙ at in
            let same : place a ≡ p = cc in
            let servers : server_id ≡ s = sym own ∙ ap (λ x. x.server) same ∙ of in
            absurd (ground (arith, eq_iff server_id s))
      ]

  removed-owned :
      (s k : String)
      → contains k (order_of s removed) ≡ true
      → (p : Place) × (place_in (lookup k removed.allocations) ≡ some p) × (p.server ≡ s)
  removed-owned s k r =
      let now =
        order_of-insert s server_id (exclude id (order_of server_id m)) m removed.allocations in
      let r' : contains k
            (if str_eq server_id s then exclude id (order_of server_id m) else order_of s m)
          ≡ true =
        ap (contains k) (sym now) ∙ r in
      elim (Bool-cases (str_eq server_id s)) [
        | inr elsewhere ↦
            let r'' : contains k (order_of s m) ≡ true = ground (arith, r') in
            still_owned s k r'' (elsewhere_other s k elsewhere r'')
        | inl here ↦
            let r'' : contains k (exclude id (order_of server_id m)) ≡ true = ground (arith, r') in
            let (kept, other) = contains-exclude k id (order_of server_id m) r'' in
            let same : order_of s m ≡ order_of server_id m =
              ap (λ x. order_of x m) (sym ((eq_iff server_id s).0 here)) in
            still_owned s k (ap (contains k) same ∙ kept) other
      ]

  removed-IsDisjoint : IsDisjoint removed
  removed-IsDisjoint = record {
    endpoints = λ i j p q e f same.
        v.endpoints i j p q (place-remove id i p m.allocations e)
          (place-remove id j q m.allocations f) same;
    owned = removed-owned;
  }

pub delete_mutation-IsDisjoint :
    (server_id id : String) (server : Server) (m : Memory)
    → IsDisjoint m
    → IsDisjoint (delete_mutation server_id id server m).1
unfolding delete_mutation
delete_mutation-IsDisjoint server_id id server m v = elim (Option-cases (lookup id m.allocations)) [
  | inl absent ↦ rw (delete_mutation, absent) v
  | inr (a, there) ↦ elim (Bool-cases (str_eq a.server_id server_id)) [
    | inr other ↦ rw (delete_mutation, there, other) v
    | inl own ↦
        let after =
          removed-IsDisjoint server_id id m v a there ((eq_iff a.server_id server_id).0 own) in
        elim (Bool-cases (leb (length (order_of server_id m)) 1)) [
          | inl last ↦ rw (delete_mutation, there, own, last) v
          | inr more ↦ elim (Bool-cases a.primary) [
            | inl primary ↦ rw (delete_mutation, there, own, more, primary) v
            | inr spare ↦ rw (delete_mutation, there, own, more, spare) after
          ]
        ]
  ]
]
