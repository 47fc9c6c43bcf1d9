-- ===== src/Store/Allocations/Places.antt =====
-- Where the allocations listen, and for which server: what the changes of allocations keep.
use gu_gu_manager.Base.{
  ℕ, ◌≡◌, refl, sym, ap, ◌∙◌, inl, inr, String, Bool, true, false, Option, none, some, List, [],
  ◌∷◌, arith, str_eq, eq_iff, contains, is_some, Bool-cases, Option-cases, if◌then◌else◌,
}
use gu_gu_manager.Base.Maps.{Assoc, lookup, insert, lookup-insert}
use gu_gu_manager.Store.Types.{Allocation, Server}
use gu_gu_manager.Store.Allocations.Mutations.{
  CreateAllocationInput, allocation_or_zero, is_taken_by, is_taken, mark_primary,
}

-- The server of an allocation, and the endpoint on its node.
pub record Place : Type 0 where
  pub server : String
  pub node : String
  pub ip : String
  pub port : ℕ
  pub protocol : String

abbrev pub place : Allocation → Place
place a = record {
  server = a.server_id;
  node = a.node_id;
  ip = a.bind_ip;
  port = a.port;
  protocol = a.protocol;
}

abbrev pub place_in : Option Allocation → Option Place
place_in none = none
place_in (some a) = some (place a)

-- One endpoint.
pub record IsSameEndpoint (p q : Place) : Type 0 where
  pub node : p.node ≡ q.node
  pub ip : p.ip ≡ q.ip
  pub port : p.port ≡ q.port
  pub protocol : p.protocol ≡ q.protocol

-- Every identifier of a list is there.
abbrev pub AreThere : List String → Assoc Allocation → Type 0
AreThere ids m = (id : String) → contains id ids ≡ true → is_some (lookup id m) ≡ true

pub place-insert :
    (id j : String) (a : Allocation) (m : Assoc Allocation)
    → place_in (lookup j (insert id a m))
      ≡ (if str_eq id j then some (place a) else place_in (lookup j m))
place-insert id j a m = elim (Bool-cases (str_eq id j)) [
  | inl same ↦ rw (lookup-insert, same) refl
  | inr other ↦ rw (lookup-insert, other) refl
]

some_place :
    (id : String) (m : Assoc Allocation)
    → is_some (lookup id m) ≡ true
    → (a : Allocation) × (lookup id m ≡ some a)
some_place id m h = elim (Option-cases (lookup id m)) [
  | inl e ↦ absurd (ground arith)
  | inr found ↦ found
]

-- A change of an allocation that is there, which keeps its place, keeps all places.
restored_place :
    (id j : String) (a a' : Allocation) (m : Assoc Allocation)
    → lookup id m ≡ some a
    → place a' ≡ place a
    → place_in (lookup j (insert id a' m)) ≡ place_in (lookup j m)
restored_place id j a a' m there same = elim (Bool-cases (str_eq id j)) [
  | inl self ↦
      rw (place-insert, self)
        (ap some same
          ∙ ap place_in (sym there)
          ∙ ap (λ k. place_in (lookup k m)) ((eq_iff id j).0 self))
  | inr other ↦ rw (place-insert, other) refl
]

AreThere-insert :
    (ids : List String) (id : String) (a : Allocation) (m : Assoc Allocation)
    → AreThere ids m
    → AreThere ids (insert id a m)
AreThere-insert ids id a m h = λ j r. ground (arith, lookup-insert id j a m, h j r)

-- The loops on the primary allocation keep all places, and what is there.
pub mark_primary-place :
    (test : String → Bool) (now : ℕ) (ids : List String) (m : Assoc Allocation) (j : String)
    → AreThere ids m
    → place_in (lookup j (mark_primary test now ids m)) ≡ place_in (lookup j m)
unfolding mark_primary allocation_or_zero contains
mark_primary-place test now [] m j h = refl
mark_primary-place test now (id ∷ ids) m j h =
    let (a, there) = some_place id m (h id (ground (arith, eq_iff id id))) in
    let a' : Allocation = record (allocation_or_zero id m) {
      primary = test id;
      updated_at = now;
    } in
    mark_primary-place test now ids (insert id a' m) j
      (AreThere-insert ids id a' m (λ k r. h k (ground arith)))
    ∙ restored_place id j a a' m there (rw (allocation_or_zero, there) refl)

-- An endpoint that is not taken is that of no allocation.
pub is_taken-IsSameEndpoint :
    (server : Server) (input : CreateAllocationInput) (j : String) (a : Allocation)
    (m : Assoc Allocation) (p : Place)
    → is_taken server input m ≡ false
    → lookup j m ≡ some a
    → p.node ≡ server.node_id
    → p.ip ≡ input.bind_ip
    → p.port ≡ input.port
    → p.protocol ≡ input.protocol
    → IsSameEndpoint (place a) p
    → is_taken_by server input a ≡ true
unfolding is_taken_by
is_taken-IsSameEndpoint server input j a m p free there node ip port protocol same = ground (
  arith,
  eq_iff a.node_id server.node_id,
  eq_iff a.bind_ip input.bind_ip,
  eq_iff a.protocol input.protocol,
  same.node,
  same.ip,
  same.port,
  same.protocol,
)

pub not_taken :
    (server : Server) (input : CreateAllocationInput) (j : String) (a : Allocation)
    (m : Assoc Allocation)
    → is_taken server input m ≡ false
    → lookup j m ≡ some a
    → is_taken_by server input a ≡ false
unfolding is_taken lookup
not_taken server input j a [] free there = absurd (ground arith)
not_taken server input j a ((i, b) ∷ m) free there = ground (arith, not_taken server input j a m)
