-- ===== src/Store/Exclusion/Operations.antt =====
-- The map of operations: what queueing one and changing one does to the exclusion.
use gu_gu_manager.Base.{◌≡◌, String, true, false, none, some, [], ◌∷◌, arith, eq_iff}
use gu_gu_manager.Base.Maps.{Assoc, lookup, insert, lookup-insert}
use gu_gu_manager.Store.Types.{Operation}
use gu_gu_manager.Store.Idempotency.{is_active_on, first_active}

-- Two operations under way on one server are the same entry.
pub record IsExclusive (ops : Assoc Operation) : Type 0 where
  pub same :
      (server i j : String) (a b : Operation)
      → lookup i ops ≡ some a
      → lookup j ops ≡ some b
      → is_active_on server a ≡ true
      → is_active_on server b ≡ true
      → i ≡ j

-- An operation that is under way no longer than another.
pub record IsCalmer (o' o : Operation) : Type 0 where
  pub calm : (server : String) → is_active_on server o' ≡ true → is_active_on server o ≡ true

pub not_active_of_first_active :
    (server j : String) (b : Operation) (ops : Assoc Operation)
    → first_active server ops ≡ none
    → lookup j ops ≡ some b
    → is_active_on server b ≡ false
unfolding first_active lookup
not_active_of_first_active server j b [] f e = absurd (ground arith)
not_active_of_first_active server j b ((i, o) ∷ rest) f e =
    ground (arith, not_active_of_first_active server j b rest)

active_server :
    (server : String) (o : Operation) → is_active_on server o ≡ true → server ≡ o.server_id
unfolding is_active_on
active_server server o h = ground (arith, eq_iff o.server_id server)

pub queue-IsExclusive :
    (id : String) (o : Operation) (ops : Assoc Operation)
    → first_active o.server_id ops ≡ none
    → IsExclusive ops
    → IsExclusive (insert id o ops)
queue-IsExclusive id o ops free x = record {
  same = λ server i j a b p q s t. ground (
    arith,
    lookup-insert id i o ops,
    lookup-insert id j o ops,
    eq_iff id i,
    eq_iff id j,
    active_server server o,
    not_active_of_first_active server i a ops,
    not_active_of_first_active server j b ops,
    x.same server i j a b,
  );
}

pub change-IsExclusive :
    (id : String) (o' o : Operation) (ops : Assoc Operation)
    → lookup id ops ≡ some o
    → IsCalmer o' o
    → IsExclusive ops
    → IsExclusive (insert id o' ops)
change-IsExclusive id o' o ops e c x = record {
  same = λ server i j a b p q s t. ground (
    arith,
    lookup-insert id i o' ops,
    lookup-insert id j o' ops,
    eq_iff id i,
    eq_iff id j,
    c.calm server,
    x.same server i j a b,
    x.same server id j o b,
    x.same server i id a o,
  );
}
