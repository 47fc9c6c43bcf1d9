-- ===== src/Store/Allocations/Network.antt =====
-- The requests on allocations, whole: what they change of the allocations.
use gu_gu_manager.Base.{
  ℕ, ◌≡◌, refl, sym, ap, subst, ◌∙◌, String, Bool, true, false, Option, none, some, [], ◌∷◌, arith,
  contains, if◌then◌else◌,
}
use gu_gu_manager.Base.Maps.{Assoc, lookup}
use gu_gu_manager.Store.Types.{Allocation, Server, User, Node, Problem, Memory}
use gu_gu_manager.Store.Exec.{
  Result, ok, err, continue, Exec, pure, raise, lift, modify, ◌>>=◌, ◌>>◌, require,
}
use gu_gu_manager.Store.Liveness.{reconcile_node, reconcile_nodes, reconcile_node_liveness}
use gu_gu_manager.Store.Power.{authorize, replay, find_server}
use gu_gu_manager.Store.Backups.Requests.{require_idle}
use gu_gu_manager.Store.Allocations.Mutations.{order_of}
use gu_gu_manager.Store.Allocations.Requests.{
  ReconcileRequest, find_available_node, accept_reconcile,
}
use gu_gu_manager.Store.Allocations.Places.{place_in}
use gu_gu_manager.Store.Allocations.Endpoints.{IsDisjoint}

-- The allocations and the orders are the same.
pub record IsSameNetwork (m m' : Memory) : Type 0 where
  pub allocations : m'.allocations ≡ m.allocations
  pub orders : m'.allocation_order ≡ m.allocation_order

order_same :
    (server : String) (m m' : Memory) → IsSameNetwork m m' → order_of server m' ≡ order_of server m
unfolding order_of
order_same server m m' s = rw (order_of, s.orders) refl

IsDisjoint-same : (m m' : Memory) → IsSameNetwork m m' → IsDisjoint m → IsDisjoint m'
IsDisjoint-same m m' s v = record {
  endpoints = λ i j p q e f.
      v.endpoints i j p q (ap (λ a. place_in (lookup i a)) (sym s.allocations) ∙ e)
        (ap (λ a. place_in (lookup j a)) (sym s.allocations) ∙ f);
  owned = λ server id r.
      let (p, at, of) = v.owned server id (ap (contains id) (sym (order_same server m m' s)) ∙ r) in
      (p, ap (λ a. place_in (lookup id a)) s.allocations ∙ at, of);
}

-- A call that leaves the network alone.
pub record Quiet {A : Type 0} (call : Exec A) : Type 0 where
  pub at : (m : Memory) → IsSameNetwork m (call m).1

-- A call that keeps the endpoints disjoint, where a predicate holds of the allocations.
pub record Careful {A : Type 0} (P : Assoc Allocation → Type 0) (call : Exec A) : Type 0 where
  pub at : (m : Memory) → P m.allocations → IsDisjoint m → IsDisjoint (call m).1

same : (m : Memory) → IsSameNetwork m m
same m = record { allocations = refl; orders = refl }

module _ {A : Type 0} where
  pub Quiet-pure : (a : A) → Quiet (pure a)
  unfolding pure
  Quiet-pure a = record { at = same }

  pub Quiet-raise : (p : Problem) → Quiet (raise {A = A} p)
  unfolding raise
  Quiet-raise p = record { at = same }

  pub Quiet-lift : (r : Result A) → Quiet (lift r)
  unfolding lift
  Quiet-lift r = record { at = same }

  pub Quiet-Careful : (P : Assoc Allocation → Type 0) (x : Exec A) → Quiet x → Careful P x
  Quiet-Careful P x q = record { at = λ m h v. IsDisjoint-same m (x m).1 (q.at m) v }

pub Quiet-require : (b : Bool) (p : Problem) → Quiet (require b p)
unfolding require pure raise
Quiet-require true p = record { at = same }
Quiet-require false p = record { at = same }

pub Quiet-authorize : (actor server permission : String) → Quiet (authorize actor server permission)
unfolding authorize
Quiet-authorize actor server permission = record { at = same }

pub Quiet-replay : (scope digest : String) → Quiet (replay scope digest)
unfolding replay
Quiet-replay scope digest = record { at = same }

pub Quiet-find_server : (server : String) → Quiet (find_server server)
unfolding find_server
Quiet-find_server server = record { at = same }

pub Quiet-find_available_node : (server : Server) → Quiet (find_available_node server)
unfolding find_available_node
Quiet-find_available_node server = record {
  at = λ m. record { allocations = ground arith; orders = ground arith };
}

pub Quiet-require_idle : (server : String) → Quiet (require_idle server)
unfolding require_idle
Quiet-require_idle server = record {
  at = λ m. record { allocations = ground arith; orders = ground arith };
}

reconcile_node-network :
    (now : ℕ) (id : String) (node : Node) (m : Memory)
    → IsSameNetwork m (reconcile_node now id node m)
unfolding reconcile_node
reconcile_node-network now id node m = record { allocations = ground arith; orders = ground arith }

reconcile_nodes-network :
    (now : ℕ) (nodes : Assoc Node) (m : Memory) → IsSameNetwork m (reconcile_nodes now nodes m)
unfolding reconcile_nodes
reconcile_nodes-network now [] m = same m
reconcile_nodes-network now ((id, node) ∷ rest) m =
    let first = reconcile_node-network now id node m in
    let others = reconcile_nodes-network now rest (reconcile_node now id node m) in
    record {
      allocations = others.allocations ∙ first.allocations;
      orders = others.orders ∙ first.orders;
    }

pub Quiet-reconcile : (now : ℕ) → Quiet (modify (reconcile_node_liveness now))
unfolding modify reconcile_node_liveness
Quiet-reconcile now = record { at = λ m. reconcile_nodes-network now m.nodes m }

pub Quiet-accept :
    (r : ReconcileRequest) (actor : User) (server : Server) (node : Node)
    → Quiet (modify (accept_reconcile r actor server node))
unfolding modify accept_reconcile
Quiet-accept r actor server node = record { at = λ m. record { allocations = refl; orders = refl } }

module _ {A B : Type 0} (P : Assoc Allocation → Type 0) where
  after_quiet :
      (r : Result A) (f : A → Exec B) (m m' : Memory)
      → IsSameNetwork m m'
      → ((a : A) → Careful P (f a))
      → P m.allocations
      → IsDisjoint m
      → IsDisjoint (continue r f m').1
  after_quiet (ok a) f m m' s c h v =
      (c a).at m' (subst P (sym s.allocations) h) (IsDisjoint-same m m' s v)
  after_quiet (err p) f m m' s c h v = IsDisjoint-same m m' s v

  -- A careful call after a quiet one, and quiet calls after a careful one.
  pub Quiet-first :
      (x : Exec A) (f : A → Exec B) → Quiet x → ((a : A) → Careful P (f a)) → Careful P (x >>= f)
  unfolding ◌>>=◌
  Quiet-first x f q c = record { at = λ m h v. after_quiet (x m).0 f m (x m).1 (q.at m) c h v }

  after_careful :
      (r : Result A) (f : A → Exec B) (m : Memory)
      → ((a : A) → Quiet (f a))
      → IsDisjoint m
      → IsDisjoint (continue r f m).1
  after_careful (ok a) f m q v = IsDisjoint-same m (f a m).1 ((q a).at m) v
  after_careful (err p) f m q v = v

  pub Quiet-last :
      (x : Exec A) (f : A → Exec B) → Careful P x → ((a : A) → Quiet (f a)) → Careful P (x >>= f)
  unfolding ◌>>=◌
  Quiet-last x f c q = record { at = λ m h v. after_careful (x m).0 f (x m).1 q (c.at m h v) }

pub Quiet-done :
    {A : Type 0} (f : Memory → Memory) (a : A) → Quiet (modify f) → Quiet (modify f >> pure a)
unfolding ◌>>=◌
Quiet-done f a q = record { at = λ m. q.at m }

module _ {A B : Type 0} (P : Assoc Allocation → Type 0) where
  pub Careful-option :
      (o : Option A) (f : A → Exec B) (x : Exec B)
      → ((a : A) → Careful P (f a))
      → Careful P x
      → Careful P (elim o [ some a ↦ f a | none ↦ x ])
  Careful-option none f x cf cx = cx
  Careful-option (some a) f x cf cx = cf a

module _ {B : Type 0} (P : Assoc Allocation → Type 0) where
  pub Careful-if :
      (b : Bool) (x y : Exec B) → Careful P x → Careful P y → Careful P (if b then x else y)
  Careful-if true x y p q = p
  Careful-if false x y p q = q
