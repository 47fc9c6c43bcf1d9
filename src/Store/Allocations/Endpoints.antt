-- ===== src/Store/Allocations/Endpoints.antt =====
-- No two allocations listen on one endpoint, whatever allocations are made, preferred and released.
use gu_gu_manager.Base.{
  ◌≡◌, refl, sym, ap, subst, ◌∙◌, inl, inr, ◌⊎◌, String, true, false, ◌||◌, none, some, List, [],
  ◌∷◌, ◌++◌, arith, str_eq, eq_iff, contains, is_some, Bool-cases, Option-cases, if◌then◌else◌,
}
use gu_gu_manager.Base.Maps.{Assoc, lookup, insert, lookup-insert}
use gu_gu_manager.Store.Types.{Allocation, Memory}
use gu_gu_manager.Store.Allocations.Mutations.{order_of}
use gu_gu_manager.Store.Allocations.Places.{
  Place, place, place_in, place-insert, IsSameEndpoint, AreThere,
}

-- No two allocations have one endpoint, and the order of a server names allocations of that server.
pub record IsDisjoint (m : Memory) : Type 0 where
  pub endpoints :
      (i j : String) (p q : Place)
      → place_in (lookup i m.allocations) ≡ some p
      → place_in (lookup j m.allocations) ≡ some q
      → IsSameEndpoint p q
      → i ≡ j
  pub owned :
      (server id : String)
      → contains id (order_of server m) ≡ true
      → (p : Place) × (place_in (lookup id m.allocations) ≡ some p) × (p.server ≡ server)

placed_there :
    (id : String) (m : Assoc Allocation) (p : Place)
    → place_in (lookup id m) ≡ some p
    → is_some (lookup id m) ≡ true
placed_there id m p e = elim (Option-cases (lookup id m)) [
  | inl absent ↦ absurd (ground arith)
  | inr (a, there) ↦ rw there refl
]

pub order-AreThere :
    (server : String) (m : Memory) → IsDisjoint m → AreThere (order_of server m) m.allocations
order-AreThere server m v =
    λ id r. let (p, at, own) = v.owned server id r in placed_there id m.allocations p at

-- A change of the allocations that keeps all places, and the orders.
pub replaced-IsDisjoint :
    (m : Memory) (allocations : Assoc Allocation)
    → ((j : String) → place_in (lookup j allocations) ≡ place_in (lookup j m.allocations))
    → IsDisjoint m
    → IsDisjoint (record m { allocations = allocations })
unfolding order_of
replaced-IsDisjoint m allocations same v = record {
  endpoints = λ i j p q a b s. v.endpoints i j p q (sym (same i) ∙ a) (sym (same j) ∙ b) s;
  owned = λ server id r. let (p, at, own) = v.owned server id r in (p, same id ∙ at, own);
}

module _ (id : String) (a : Allocation) (m : Assoc Allocation) where
  new_place :
      (i : String) (p : Place)
      → str_eq id i ≡ true
      → place_in (lookup i (insert id a m)) ≡ some p
      → place a ≡ p
  new_place i p self e =
      let found : some (place a) ≡ some p = rw (← e, place-insert, self) refl in cc

  old_place :
      (i : String) (p : Place)
      → str_eq id i ≡ false
      → place_in (lookup i (insert id a m)) ≡ some p
      → place_in (lookup i m) ≡ some p
  old_place i p other e =
      let kept : place_in (lookup i m) ≡ place_in (lookup i (insert id a m)) =
        rw (place-insert, other) refl in
      kept ∙ e

reversed : (p q : Place) → IsSameEndpoint p q → IsSameEndpoint q p
reversed p q s = record {
  node = sym s.node;
  ip = sym s.ip;
  port = sym s.port;
  protocol = sym s.protocol;
}

contains-append :
    (k : String) (xs ys : List String) → contains k (xs ++ ys) ≡ (contains k xs || contains k ys)
unfolding contains
contains-append k [] ys = refl
contains-append k (x ∷ xs) ys = ground (arith, contains-append k xs ys)

pub order_of-insert :
    (s server : String) (ids : List String) (m : Memory) (allocations : Assoc Allocation)
    → order_of s (record m {
      allocations = allocations;
      allocation_order = insert server ids m.allocation_order;
    })
      ≡ (if str_eq server s then ids else order_of s m)
unfolding order_of
order_of-insert s server ids m allocations =
    ground (arith, lookup-insert server s ids m.allocation_order)

module _ (m : Memory) (id server : String) (a : Allocation) (fresh : lookup id m.allocations ≡ none)
    (own : a.server_id ≡ server)
    (free : (j : String) (q : Place)
      → place_in (lookup j m.allocations) ≡ some q
      → ¬ IsSameEndpoint q (place a))
    (v : IsDisjoint m) where
  -- The memory with a new allocation of a server on an endpoint that no other has.
  abbrev added : Memory
  added = record m {
    allocations = insert id a m.allocations;
    allocation_order = insert server (order_of server m ++ id ∷ []) m.allocation_order;
  }

  added-endpoints :
      (i j : String) (p q : Place)
      → place_in (lookup i added.allocations) ≡ some p
      → place_in (lookup j added.allocations) ≡ some q
      → IsSameEndpoint p q
      → i ≡ j
  added-endpoints i j p q e f s = elim (Bool-cases (str_eq id i)) [
    | inl si ↦ elim (Bool-cases (str_eq id j)) [
      | inl sj ↦ sym ((eq_iff id i).0 si) ∙ (eq_iff id j).0 sj
      | inr oj ↦ absurd (
          free j q (old_place id a m.allocations j q oj f) (
            subst (IsSameEndpoint q) (sym (new_place id a m.allocations i p si e))
              (reversed p q s)))
    ]
    | inr oi ↦ elim (Bool-cases (str_eq id j)) [
      | inl sj ↦ absurd (
          free i p (old_place id a m.allocations i p oi e)
            (subst (IsSameEndpoint p) (sym (new_place id a m.allocations j q sj f)) s))
      | inr oj ↦
          v.endpoints i j p q (old_place id a m.allocations i p oi e)
            (old_place id a m.allocations j q oj f) s
    ]
  ]

  kept_place :
      (k : String) (s : String)
      → contains k (order_of s m) ≡ true
      → (p : Place) × (place_in (lookup k added.allocations) ≡ some p) × (p.server ≡ s)
  kept_place k s r =
      let (p, at, of) = v.owned s k r in
      elim (Bool-cases (str_eq id k)) [
        | inl self ↦ absurd (ground (arith, eq_iff id k, placed_there k m.allocations p at))
        | inr other ↦ (p, rw (place-insert, other) at, of)
      ]

  order_before :
      (s k : String)
      → contains k (order_of s added) ≡ true
      → (str_eq server s ≡ false) ⊎ (str_eq id k ≡ false)
      → contains k (order_of s m) ≡ true
  unfolding contains
  order_before s k r new =
      let now = order_of-insert s server (order_of server m ++ id ∷ []) m added.allocations in
      let r' : contains k (if str_eq server s then order_of server m ++ id ∷ [] else order_of s m)
          ≡ true =
        ap (contains k) (sym now) ∙ r in
      elim (Bool-cases (str_eq server s)) [
        | inr elsewhere ↦ ground (arith, r')
        | inl here ↦
            let both = contains-append k (order_of server m) (id ∷ []) in
            let same : order_of server m ≡ order_of s m =
              ap (λ x. order_of x m) ((eq_iff server s).0 here) in
            ap (contains k) (sym same) ∙ ground (arith, r', both, new)
      ]

  added-owned :
      (s k : String)
      → contains k (order_of s added) ≡ true
      → (p : Place) × (place_in (lookup k added.allocations) ≡ some p) × (p.server ≡ s)
  added-owned s k r = elim (Bool-cases (str_eq server s)) [
    | inr elsewhere ↦ kept_place k s (order_before s k r (inl elsewhere))
    | inl here ↦ elim (Bool-cases (str_eq id k)) [
      | inl self ↦ (place a, rw (place-insert, self) refl, own ∙ (eq_iff server s).0 here)
      | inr other ↦ kept_place k s (order_before s k r (inr other))
    ]
  ]

  pub added-IsDisjoint : IsDisjoint added
  added-IsDisjoint = record { endpoints = added-endpoints; owned = added-owned }
