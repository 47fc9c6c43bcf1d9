-- ===== src/Agent/Tasks.antt =====
-- internal/agent/agent.go: what `executeTask` does with a task that is delivered, beside the journal.
-- The digest of the payload is a field of the task. What secret handles, the executor and an execution
-- in flight give are arguments. An observation is its encoding, and the texts that the journal holds
-- for observations decode; the stream takes each frame. The log, the lock on the server and the renewal
-- of the lease, which sends heartbeats while the executor runs, are left out.
use gu_gu_manager.Base.{
  ℕ, String, Bool, true, false, not, ◌&&◌, ◌||◌, Option, none, some, List, [], ◌∷◌, str_eq,
  if◌then◌else◌, is_empty,
}
use gu_gu_manager.Agent.Journal.{
  Bucket, JournalEntry, Outcome, Update, rolled_back, committed, digest_mismatch, not_running,
  undecodable, bucket_after, Lookup, absent, broken, present, lookup_entry, record_running,
  complete_task,
}

pub record Task : Type 0 where
  pub operation_id : String
  pub digest : String
  pub attempt : ℕ
  pub lease_token : String
  pub connection_epoch : ℕ

pub record TaskAck : Type 0 where
  pub operation_id : String
  pub accepted : Bool
  pub error_code : String
  pub attempt : ℕ
  pub lease_token : String
  pub connection_epoch : ℕ

pub record TaskResult : Type 0 where
  pub operation_id : String
  pub succeeded : Bool
  pub error_code : String
  pub retryable : Bool
  pub result_json : String
  pub attempt : ℕ
  pub lease_token : String
  pub connection_epoch : ℕ

pub data Frame : Type 0 where
  task_ack : TaskAck → Frame
  task_result : TaskResult → Frame
  server_observed : String → Frame

-- The execution of the operation that is registered: none, one that ends while the task waits, or one
-- that outlasts the session.
pub data Inflight : Type 0 where
  unregistered outlasts : Inflight
  ends : Outcome → Inflight

-- What the surroundings of a delivery give: the registered execution, whether the secret handles are
-- resolved, what the executor returns (none for an error or nothing), and two times.
pub record Surroundings : Type 0 where
  pub inflight : Inflight
  pub resolved : Bool
  pub returned : Option Outcome
  pub started_at : ℕ
  pub ended_at : ℕ

-- What comes of a delivery: the journal, whether the executor was called, and the frames.
pub record Delivered : Type 0 where
  pub journal : Bucket
  pub executed : Bool
  pub frames : List Frame

unfoldable pub send_ack : Bool → String → Task → Frame
send_ack accepted code task = task_ack (record {
  operation_id = task.operation_id;
  accepted = accepted;
  error_code = code;
  attempt = task.attempt;
  lease_token = task.lease_token;
  connection_epoch = task.connection_epoch;
})

unfoldable pub result_frame : Bool → String → Bool → String → Task → Frame
result_frame succeeded code retryable result task = task_result (record {
  operation_id = task.operation_id;
  succeeded = succeeded;
  error_code = code;
  retryable = retryable;
  result_json = result;
  attempt = task.attempt;
  lease_token = task.lease_token;
  connection_epoch = task.connection_epoch;
})

unfoldable pub send_observed : String → List Frame
unfolding is_empty
send_observed observed = if is_empty observed then [] else server_observed observed ∷ []

unfoldable pub send_task_result : Bool → String → Bool → String → Task → Frame
unfolding is_empty result_frame
send_task_result succeeded code retryable result task =
    result_frame succeeded (if not succeeded && is_empty code then "OPERATION_FAILED" else code)
      retryable result task

unfoldable pub replayed_code : JournalEntry → String
unfolding is_empty
replayed_code entry =
    if str_eq entry.status "succeeded"
    then ""
    else if is_empty entry.error_code
    then "OPERATION_FAILED"
    else entry.error_code

unfoldable pub replay_journal_result : Task → JournalEntry → List Frame
unfolding result_frame replayed_code send_observed
replay_journal_result task entry =
    result_frame (str_eq entry.status "succeeded") (replayed_code entry) entry.retryable
      entry.result_json task
    ∷ send_observed entry.observed

abbrev pub is_final : JournalEntry → Bool
is_final entry = str_eq entry.status "succeeded" || str_eq entry.status "failed"

abbrev pub recovery_code : String
recovery_code = "AGENT_RESTARTED_DURING_OPERATION"

abbrev pub recovered : Outcome
recovered = record {
  succeeded = false;
  error_code = recovery_code;
  retryable = false;
  checkpoint = "failed";
  result_json = "{\"code\":\"AGENT_RESTARTED_DURING_OPERATION\"}";
  observed = "";
}

-- `awaitInflight`, with no execution registered, on what the journal says then.
unfoldable pub recover : Task → ℕ → Bucket → Lookup → Delivered
unfolding replay_journal_result send_task_result complete_task bucket_after
recover task now b (present entry) =
    if str_eq entry.digest task.digest
    then if is_final entry
      then record { journal = b; executed = false; frames = replay_journal_result task entry }
      else record {
        journal =
            bucket_after b
              (complete_task task.operation_id task.digest task.attempt recovered now b);
        executed = false;
        frames = send_task_result false recovery_code false recovered.result_json task ∷ [];
      }
    else record { journal = b; executed = false; frames = [] }
recover task now b _ = record { journal = b; executed = false; frames = [] }

unfoldable pub await_inflight : Task → Surroundings → Bucket → Delivered
unfolding recover lookup_entry send_task_result send_observed
await_inflight task w b = elim w.inflight [
  | unregistered ↦ recover task w.ended_at b (lookup_entry task.operation_id b)
  | outlasts ↦ record { journal = b; executed = false; frames = [] }
  | ends r ↦ record {
    journal = b;
    executed = false;
    frames =
        send_task_result r.succeeded r.error_code r.retryable r.result_json task
        ∷ send_observed r.observed;
  }
]

unfoldable pub with_frame : Frame → Delivered → Delivered
with_frame f d = record d { frames = f ∷ d.frames }

abbrev pub failed_with : String → Outcome
failed_with code = record {
  succeeded = false;
  error_code = code;
  retryable = true;
  checkpoint = "";
  result_json = "";
  observed = "";
}

unfoldable pub outcome_of : Surroundings → Outcome
outcome_of w = elim w.returned [
  | none ↦ if w.resolved then failed_with "EXECUTION_ERROR" else failed_with "SECRET_HANDLE_FAILED"
  | some o ↦ if w.resolved then record o { checkpoint = "" } else failed_with "SECRET_HANDLE_FAILED"
]

-- From the acknowledgement to the end: the result is stored first, then sent.
unfoldable pub perform : Task → Surroundings → Bucket → Delivered
unfolding outcome_of complete_task bucket_after send_ack result_frame send_observed
perform task w b =
    let o = outcome_of w in
    record {
      journal =
          bucket_after b (complete_task task.operation_id task.digest task.attempt o w.ended_at b);
      executed = w.resolved;
      frames =
          send_ack true "" task
          ∷ result_frame o.succeeded o.error_code o.retryable o.result_json task
          ∷ send_observed o.observed;
    }

-- After `RecordRunning`: only a digest that differs stops the task, another error is logged.
unfoldable pub begin_task : Task → Surroundings → Bucket → Update → Delivered
unfolding perform send_ack
begin_task task w b (committed b') = perform task w b'
begin_task task w b (rolled_back digest_mismatch) = record {
  journal = b;
  executed = false;
  frames = send_ack false "OPERATION_DIGEST_MISMATCH" task ∷ [];
}
begin_task task w b (rolled_back not_running) = perform task w b
begin_task task w b (rolled_back undecodable) = perform task w b

-- From `registerInflight` on.
unfoldable pub register_task : Task → Surroundings → Bucket → Delivered
unfolding begin_task record_running await_inflight with_frame send_ack
register_task task w b = elim w.inflight [
  | unregistered ↦
      begin_task task w b (record_running task.operation_id task.digest task.attempt w.started_at b)
  | outlasts ↦ with_frame (send_ack true "" task) (await_inflight task w b)
  | ends r ↦ with_frame (send_ack true "" task) (await_inflight task w b)
]

-- What the journal says of the operation decides.
unfoldable pub decide_task : Task → Surroundings → Bucket → Lookup → Delivered
unfolding register_task await_inflight with_frame send_ack replay_journal_result
decide_task task w b absent = register_task task w b
decide_task task w b broken = register_task task w b
decide_task task w b (present entry) =
    if not (str_eq entry.digest task.digest)
    then record {
      journal = b;
      executed = false;
      frames = send_ack false "OPERATION_DIGEST_MISMATCH" task ∷ [];
    }
    else if is_final entry
    then record {
      journal = b;
      executed = false;
      frames = send_ack true "" task ∷ replay_journal_result task entry;
    }
    else with_frame (send_ack true "" task) (await_inflight task w b)

unfoldable pub execute_task : Task → Surroundings → Bucket → Delivered
unfolding decide_task lookup_entry
execute_task task w b = decide_task task w b (lookup_entry task.operation_id b)
