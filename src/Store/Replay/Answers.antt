-- ===== src/Store/Replay/Answers.antt =====
-- The answer to a request whose idempotency key is recorded.
use gu_gu_manager.Base.{
  ℕ, ◌≡◌, refl, ap, ◌∙◌, inl, inr, String, true, false, none, some, List, [], ◌∷◌, arith, str_eq,
  Bool-cases, if◌then◌else◌,
}
use gu_gu_manager.Base.Maps.{Assoc, lookup}
use gu_gu_manager.Store.Types.{
  Operation, Problem, User, Server, Node, IdempotencyRecord, StartupVariable, Memory,
}
use gu_gu_manager.Store.Exec.{Result, ok, err, Exec, pure, lift, modify, ◌>>=◌, require, problem}
use gu_gu_manager.Store.Access.{authorize_server}
use gu_gu_manager.Store.Idempotency.{validate_idempotency_key, idempotent_operation}
use gu_gu_manager.Store.Liveness.{reconcile_node, reconcile_nodes, reconcile_node_liveness}
use gu_gu_manager.Store.Power.{
  PowerRequest, is_power_action, scope_of, authorize, replay, request_new, request_power,
}
use gu_gu_manager.Store.Backups.Requests.{
  BackupRequest, create_scope, restore_scope, delete_scope, create_new, restore_new, delete_new,
  create_backup, restore_backup, delete_backup,
}
use gu_gu_manager.Store.Exclusion.Queue.{reconcile_node_liveness-operations}

reconcile_node-idempotency :
    (now : ℕ) (id : String) (node : Node) (m : Memory)
    → (reconcile_node now id node m).idempotency ≡ m.idempotency
unfolding reconcile_node
reconcile_node-idempotency now id node m = ground arith

reconcile_nodes-idempotency :
    (now : ℕ) (nodes : Assoc Node) (m : Memory)
    → (reconcile_nodes now nodes m).idempotency ≡ m.idempotency
unfolding reconcile_nodes
reconcile_nodes-idempotency now [] m = refl
reconcile_nodes-idempotency now ((id, node) ∷ rest) m =
    reconcile_nodes-idempotency now rest (reconcile_node now id node m)
    ∙ reconcile_node-idempotency now id node m

pub reconcile_node_liveness-idempotency :
    (now : ℕ) (m : Memory) → (reconcile_node_liveness now m).idempotency ≡ m.idempotency
unfolding reconcile_node_liveness
reconcile_node_liveness-idempotency now m = reconcile_nodes-idempotency now m.nodes m

-- A step whose result is known.
module _ {A B : Type 0} where
  bind-ok :
      (x : Exec A) (f : A → Exec B) (m m' : Memory) (a : A)
      → x m ≡ (ok a, m')
      → (x >>= f) m ≡ f a m'
  unfolding ◌>>=◌
  bind-ok x f m m' a e = rw e refl

  bind-err :
      (x : Exec A) (f : A → Exec B) (m m' : Memory) (p : Problem)
      → x m ≡ (err p, m')
      → (x >>= f) m ≡ (err p, m')
  unfolding ◌>>=◌
  bind-err x f m m' p e = rw e refl

-- A record of the key, and the operation that it names.
pub record IsRecorded (scope : String) (rec : IdempotencyRecord) (o : Operation) (m : Memory)
    : Type 0 where
  pub known : lookup scope m.idempotency ≡ some rec
  pub stored : lookup rec.operation_id m.operations ≡ some o

-- The answer: the operation as it now stands, or a refusal if the request is another one.
abbrev pub answer : IdempotencyRecord → String → Operation → Result Operation
answer rec digest o =
    if str_eq rec.request_digest digest then ok o else err (problem "IDEMPOTENCY_KEY_REUSED" false)

module _ (scope digest : String) (rec : IdempotencyRecord) (o : Operation) where
  pub IsRecorded-reconcile :
      (now : ℕ) (m : Memory)
      → IsRecorded scope rec o m
      → IsRecorded scope rec o (reconcile_node_liveness now m)
  IsRecorded-reconcile now m h = record {
    known = ap (lookup scope) (reconcile_node_liveness-idempotency now m) ∙ h.known;
    stored = ap (lookup rec.operation_id) (reconcile_node_liveness-operations now m) ∙ h.stored;
  }

  idempotent_operation-ok :
      (m : Memory)
      → IsRecorded scope rec o m
      → str_eq rec.request_digest digest ≡ true
      → idempotent_operation scope digest m ≡ ok (some o)
  unfolding idempotent_operation
  idempotent_operation-ok m h e = rw (idempotent_operation, h.known, h.stored, e) refl

  idempotent_operation-err :
      (m : Memory)
      → IsRecorded scope rec o m
      → str_eq rec.request_digest digest ≡ false
      → idempotent_operation scope digest m ≡ err (problem "IDEMPOTENCY_KEY_REUSED" false)
  unfolding idempotent_operation
  idempotent_operation-err m h e = rw (idempotent_operation, h.known, h.stored, e) refl

  -- The end of each call, once the request is accepted.
  replayed :
      (otherwise : Exec Operation) (m : Memory)
      → IsRecorded scope rec o m
      → (replay scope digest >>= λ existing. elim existing as (λ _. Exec Operation) [
        | some o' ↦ pure o'
        | none ↦ otherwise
      ])
          m
        ≡ (answer rec digest o, m)
  unfolding replay pure
  replayed otherwise m h = elim (Bool-cases (str_eq rec.request_digest digest)) [
    | inl e ↦
        bind-ok (replay scope digest) _ m m (some o)
          (ap (λ r. (r, m)) (idempotent_operation-ok m h e))
        ∙ rw e refl
    | inr e ↦
        bind-err (replay scope digest) _ m m _ (ap (λ r. (r, m)) (idempotent_operation-err m h e))
        ∙ rw e refl
  ]

module _ (r : PowerRequest) (rec : IdempotencyRecord) (o : Operation) (actor : User) (m : Memory)
    (valid : validate_idempotency_key r.key ≡ ok tt)
    (allowed : authorize_server m r.actor_id r.server_id "servers.power" ≡ ok actor)
    (recorded : IsRecorded (scope_of r) rec o m) where
  -- A valid power request of an authorized actor whose key is recorded gets the operation that the record
  -- names, or `IDEMPOTENCY_KEY_REUSED` if its digest is another; apart from the look at the nodes,
  -- the store stays as it is.
  pub request_power_replayed :
      (template : Memory → Server → Result (List StartupVariable))
      → is_power_action r.action ≡ true
      → request_power template r m ≡ (answer rec r.digest o, reconcile_node_liveness r.now m)
  unfolding request_power authorize lift require pure modify
  request_power_replayed template action =
      bind-ok (lift (validate_idempotency_key r.key)) _ m m tt (ap (λ v. (v, m)) valid)
      ∙ bind-ok (require (is_power_action r.action) (problem "VALIDATION_FAILED" false)) _ m m tt
          (rw action refl)
      ∙ bind-ok (authorize r.actor_id r.server_id "servers.power") _ m m actor
          (ap (λ v. (v, m)) allowed)
      ∙ bind-ok (modify (reconcile_node_liveness r.now)) _ m _ tt refl
      ∙ replayed (scope_of r) r.digest rec o (request_new template r actor) _
          (IsRecorded-reconcile (scope_of r) r.digest rec o r.now m recorded)

module _ (r : BackupRequest) (rec : IdempotencyRecord) (o : Operation) (actor : User) (m : Memory)
    (valid : validate_idempotency_key r.key ≡ ok tt) where
  -- A request to create a backup, of an authorized actor and with a key that is recorded, gets the
  -- operation that the record names, or `IDEMPOTENCY_KEY_REUSED` if its digest is another; apart from
  -- the look at the nodes, the store stays as it is.
  pub create_backup_replayed :
      authorize_server m r.actor_id r.server_id "servers.backups.create" ≡ ok actor
      → IsRecorded (create_scope r) rec o m
      → create_backup r m ≡ (answer rec r.digest o, reconcile_node_liveness r.now m)
  unfolding create_backup authorize lift modify
  create_backup_replayed allowed recorded =
      bind-ok (lift (validate_idempotency_key r.key)) _ m m tt (ap (λ v. (v, m)) valid)
      ∙ bind-ok (authorize r.actor_id r.server_id "servers.backups.create") _ m m actor
          (ap (λ v. (v, m)) allowed)
      ∙ bind-ok (modify (reconcile_node_liveness r.now)) _ m _ tt refl
      ∙ replayed (create_scope r) r.digest rec o (create_new r actor) _
          (IsRecorded-reconcile (create_scope r) r.digest rec o r.now m recorded)

  -- A request to restore a backup, of an authorized actor and with a key that is recorded, gets the
  -- operation that the record names, or `IDEMPOTENCY_KEY_REUSED` if its digest is another; apart from
  -- the look at the nodes, the store stays as it is.
  pub restore_backup_replayed :
      authorize_server m r.actor_id r.server_id "servers.backups.restore" ≡ ok actor
      → IsRecorded (restore_scope r) rec o m
      → restore_backup r m ≡ (answer rec r.digest o, reconcile_node_liveness r.now m)
  unfolding restore_backup authorize lift modify
  restore_backup_replayed allowed recorded =
      bind-ok (lift (validate_idempotency_key r.key)) _ m m tt (ap (λ v. (v, m)) valid)
      ∙ bind-ok (authorize r.actor_id r.server_id "servers.backups.restore") _ m m actor
          (ap (λ v. (v, m)) allowed)
      ∙ bind-ok (modify (reconcile_node_liveness r.now)) _ m _ tt refl
      ∙ replayed (restore_scope r) r.digest rec o (restore_new r actor) _
          (IsRecorded-reconcile (restore_scope r) r.digest rec o r.now m recorded)

  -- A request to delete a backup, of an authorized actor and with a key that is recorded, gets the
  -- operation that the record names, or `IDEMPOTENCY_KEY_REUSED` if its digest is another; the store
  -- stays as it is.
  pub delete_backup_replayed :
      authorize_server m r.actor_id r.server_id "servers.backups.delete" ≡ ok actor
      → IsRecorded (delete_scope r) rec o m
      → delete_backup r m ≡ (answer rec r.digest o, m)
  unfolding delete_backup authorize lift
  delete_backup_replayed allowed recorded =
      bind-ok (lift (validate_idempotency_key r.key)) _ m m tt (ap (λ v. (v, m)) valid)
      ∙ bind-ok (authorize r.actor_id r.server_id "servers.backups.delete") _ m m actor
          (ap (λ v. (v, m)) allowed)
      ∙ replayed (delete_scope r) r.digest rec o (delete_new r actor) _ recorded
