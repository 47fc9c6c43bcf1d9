-- ===== src/Store/Exclusion/Queue.antt =====
-- The calls that queue an operation do so only on a server that no operation is under way on.
use gu_gu_manager.Base.{
  ℕ, ◌≡◌, refl, sym, subst, ◌∙◌, inl, inr, ◌⊎◌, String, Bool, true, false, Option, none, some, List,
  [], ◌∷◌, arith, if◌then◌else◌,
}
use gu_gu_manager.Base.Maps.{Assoc, insert}
use gu_gu_manager.Store.Types.{Operation, User, Server, Node, StartupVariable, Problem, Memory}
use gu_gu_manager.Store.Exec.{
  Result, ok, err, continue, Exec, pure, raise, lift, gets, modify, ◌>>=◌, ◌>>◌, require,
}
use gu_gu_manager.Store.Idempotency.{first_active, active_exclusive_operation, remember}
use gu_gu_manager.Store.Liveness.{
  reconcile_node, reconcile_nodes, reconcile_node_liveness, heartbeat,
}
use gu_gu_manager.Store.Power.{
  PowerRequest, power_operation, accept_power, check_startup, request_idle, request_busy,
  request_new, request_power, find_server, authorize, replay,
}

-- The operations afterwards: as before, or with one more, on a server that was free.
abbrev pub QueuesAtMost : String → String → Assoc Operation → Assoc Operation → Type 0
QueuesAtMost id server_id ops ops' =
    (ops' ≡ ops)
    ⊎ ((o : Operation) × (o.server_id ≡ server_id)
        × (first_active server_id ops ≡ none)
        × (ops' ≡ insert id o ops))

reconcile_node-operations :
    (now : ℕ) (id : String) (node : Node) (m : Memory)
    → (reconcile_node now id node m).operations ≡ m.operations
unfolding reconcile_node
reconcile_node-operations now id node m = ground arith

reconcile_nodes-operations :
    (now : ℕ) (nodes : Assoc Node) (m : Memory)
    → (reconcile_nodes now nodes m).operations ≡ m.operations
unfolding reconcile_nodes
reconcile_nodes-operations now [] m = refl
reconcile_nodes-operations now ((id, node) ∷ rest) m =
    reconcile_nodes-operations now rest (reconcile_node now id node m)
    ∙ reconcile_node-operations now id node m

pub reconcile_node_liveness-operations :
    (now : ℕ) (m : Memory) → (reconcile_node_liveness now m).operations ≡ m.operations
unfolding reconcile_node_liveness
reconcile_node_liveness-operations now m = reconcile_nodes-operations now m.nodes m

pub heartbeat-operations :
    (name version : String) (now : ℕ) (m : Memory)
    → (heartbeat name version now m).1.operations ≡ m.operations
unfolding heartbeat
heartbeat-operations name version now m = ground arith

-- A call that leaves the operations alone.
pub record Still {A : Type 0} (call : Exec A) : Type 0 where
  pub at : (m : Memory) → (call m).1.operations ≡ m.operations

-- A call that queues at most one operation, and one that does so if the server is free.
pub record Queues {A : Type 0} (id server_id : String) (call : Exec A) : Type 0 where
  pub at : (m : Memory) → QueuesAtMost id server_id m.operations (call m).1.operations

pub record QueuesIdle {A : Type 0} (id server_id : String) (call : Exec A) : Type 0 where
  pub at :
      (m : Memory)
      → first_active server_id m.operations ≡ none
      → QueuesAtMost id server_id m.operations (call m).1.operations

module _ {A : Type 0} where
  pub Still-pure : (a : A) → Still (pure a)
  unfolding pure
  Still-pure a = record { at = λ m. refl }

  pub Still-raise : (p : Problem) → Still (raise {A = A} p)
  unfolding raise
  Still-raise p = record { at = λ m. refl }

  pub Still-lift : (r : Result A) → Still (lift r)
  unfolding lift
  Still-lift r = record { at = λ m. refl }

  pub Still-gets : (f : Memory → A) → Still (gets f)
  unfolding gets
  Still-gets f = record { at = λ m. refl }

  pub Still-if : (b : Bool) (x y : Exec A) → Still x → Still y → Still (if b then x else y)
  Still-if true x y p q = p
  Still-if false x y p q = q

pub Still-require : (b : Bool) (p : Problem) → Still (require b p)
unfolding require
Still-require true p = record { at = λ m. refl }
Still-require false p = record { at = λ m. refl }

pub Still-modify :
    (f : Memory → Memory) → ((m : Memory) → (f m).operations ≡ m.operations) → Still (modify f)
unfolding modify
Still-modify f h = record { at = h }

pub Still-authorize : (actor server permission : String) → Still (authorize actor server permission)
unfolding authorize
Still-authorize actor server permission = record { at = λ m. refl }

pub Still-replay : (scope digest : String) → Still (replay scope digest)
unfolding replay
Still-replay scope digest = record { at = λ m. refl }

pub Still-find_server : (server : String) → Still (find_server server)
unfolding find_server
Still-find_server server = record { at = λ m. refl }

pub Still-reconcile : (now : ℕ) → Still (modify (reconcile_node_liveness now))
Still-reconcile now =
    Still-modify (reconcile_node_liveness now) (reconcile_node_liveness-operations now)

pub Still-remember : (scope id digest : String) → Still (modify (remember scope id digest))
Still-remember scope id digest =
    Still-modify (remember scope id digest) (unfold remember in λ m. refl)

module _ {A B : Type 0} where
  continue-Still :
      (r : Result A) (f : A → Exec B) (m : Memory)
      → ((a : A) → Still (f a))
      → (continue r f m).1.operations ≡ m.operations
  continue-Still (ok a) f m h = (h a).at m
  continue-Still (err p) f m h = refl

  pub Still-bind :
      (x : Exec A) (f : A → Exec B) → Still x → ((a : A) → Still (f a)) → Still (x >>= f)
  unfolding ◌>>=◌
  Still-bind x f sx sf = record { at = λ m. continue-Still (x m).0 f (x m).1 sf ∙ sx.at m }

  module _ (id server_id : String) where
    continue-Queues :
        (r : Result A) (f : A → Exec B) (m : Memory)
        → ((a : A) → Queues id server_id (f a))
        → QueuesAtMost id server_id m.operations (continue r f m).1.operations
    continue-Queues (ok a) f m h = (h a).at m
    continue-Queues (err p) f m h = inl refl

    continue-QueuesIdle :
        (r : Result A) (f : A → Exec B) (m : Memory)
        → ((a : A) → QueuesIdle id server_id (f a))
        → first_active server_id m.operations ≡ none
        → QueuesAtMost id server_id m.operations (continue r f m).1.operations
    continue-QueuesIdle (ok a) f m h free = (h a).at m free
    continue-QueuesIdle (err p) f m h free = inl refl

    pub Queues-bind :
        (x : Exec A) (f : A → Exec B)
        → Still x
        → ((a : A) → Queues id server_id (f a))
        → Queues id server_id (x >>= f)
    unfolding ◌>>=◌
    Queues-bind x f sx qf = record {
      at = λ m.
          subst (λ ops. QueuesAtMost id server_id ops (continue (x m).0 f (x m).1).1.operations)
            (sx.at m) (continue-Queues (x m).0 f (x m).1 qf);
    }

    pub QueuesIdle-bind :
        (x : Exec A) (f : A → Exec B)
        → Still x
        → ((a : A) → QueuesIdle id server_id (f a))
        → QueuesIdle id server_id (x >>= f)
    unfolding ◌>>=◌
    QueuesIdle-bind x f sx qf = record {
      at = λ m free.
          subst (λ ops. QueuesAtMost id server_id ops (continue (x m).0 f (x m).1).1.operations)
            (sx.at m)
            (continue-QueuesIdle (x m).0 f (x m).1 qf
              (subst (λ ops. first_active server_id ops ≡ none) (sym (sx.at m)) free));
    }

module _ {A : Type 0} (id server_id : String) where
  pub Queues-Still : (x : Exec A) → Still x → Queues id server_id x
  Queues-Still x s = record { at = λ m. inl (s.at m) }

  pub Queues-option :
      {B : Type 0} (o : Option B) (f : B → Exec A) (x : Exec A)
      → ((b : B) → Queues id server_id (f b))
      → Queues id server_id x
      → Queues id server_id (elim o [ some b ↦ f b | none ↦ x ])
  Queues-option none f x qf qx = qx
  Queues-option (some b) f x qf qx = qf b

  active_cases :
      (o : Option Operation) (f : Operation → Exec A) (x : Exec A) (m : Memory)
      → first_active server_id m.operations ≡ o
      → ((a : Operation) → Still (f a))
      → QueuesIdle id server_id x
      → QueuesAtMost id server_id m.operations
          ((elim o as (λ _. Exec A) [ some a ↦ f a | none ↦ x ]) m).1.operations
  active_cases none f x m e sf qx = qx.at m e
  active_cases (some a) f x m e sf qx = inl ((sf a).at m)

  -- The look at the operation that is under way, and what is done about it.
  pub Queues-active :
      (f : Operation → Exec A) (x : Exec A)
      → ((a : Operation) → Still (f a))
      → QueuesIdle id server_id x
      → Queues id server_id
          (gets (active_exclusive_operation server_id) >>= λ o. elim o [ some a ↦ f a | none ↦ x ])
  unfolding ◌>>=◌ active_exclusive_operation
  Queues-active f x sf qx = record {
    at = λ m. active_cases (first_active server_id m.operations) f x m refl sf qx;
  }

  -- The change that queues an operation, and the answer.
  pub QueuesIdle-accept :
      (f : Memory → Memory) (a : A) (o : Operation)
      → o.server_id ≡ server_id
      → ((m : Memory) → (f m).operations ≡ insert id o m.operations)
      → QueuesIdle id server_id (modify f >> pure a)
  unfolding ◌>>=◌
  QueuesIdle-accept f a o e h = record { at = λ m free. inr (o, e, free, h m) }

pub ruleset still_rules = (
  Still-pure, Still-raise, Still-lift, Still-gets, Still-if, Still-require, Still-authorize,
  Still-replay, Still-find_server, Still-reconcile, Still-remember, Still-bind,
)

module _ (template : Memory → Server → Result (List StartupVariable)) (r : PowerRequest) where
  pub check_startup-Still : (server : Server) → Still (check_startup template r server)
  unfolding check_startup
  check_startup-Still server = record { at = λ m. ground arith }

  request_idle-QueuesIdle :
      (actor : User) (server : Server) (condition : String)
      → QueuesIdle r.new_id r.server_id (request_idle template r actor server condition)
  unfolding request_idle
  request_idle-QueuesIdle actor server condition = QueuesIdle-bind _ _ _ _ (Still-require _ _) (λ _.
      QueuesIdle-bind _ _ _ _ (Still-if _ _ _ (check_startup-Still server) (Still-pure tt)) (λ _.
        QueuesIdle-accept r.new_id r.server_id (accept_power r actor server condition)
          (power_operation r server) (power_operation r server) (unfold power_operation in refl)
          (unfold accept_power in λ m. refl)))

  request_busy-Still : (active : Operation) → Still (request_busy r active)
  unfolding request_busy
  request_busy-Still active = search still_rules

  request_new-Queues : (actor : User) → Queues r.new_id r.server_id (request_new template r actor)
  unfolding request_new
  request_new-Queues actor = Queues-bind _ _ _ _ (Still-find_server _) λ server.
      Queues-bind _ _ _ _ (Still-gets _) λ condition. Queues-bind _ _ _ _ (Still-require _ _) λ _.
        Queues-active _ _ _ _ request_busy-Still (request_idle-QueuesIdle actor server condition)

  pub request_power-Queues : Queues r.new_id r.server_id (request_power template r)
  unfolding request_power
  request_power-Queues = Queues-bind _ _ _ _ (Still-lift _) λ _.
      Queues-bind _ _ _ _ (Still-require _ _) λ _.
        Queues-bind _ _ _ _ (Still-authorize _ _ _) λ actor.
          Queues-bind _ _ _ _ (Still-reconcile _) λ _.
            Queues-bind _ _ _ _ (Still-replay _ _) λ existing.
              Queues-option _ _ existing _ _ (λ o. Queues-Still _ _ _ (Still-pure o))
                (request_new-Queues actor)
