-- ===== src/Agent/Deliveries.antt =====
-- A task that is delivered again: what it is answered, and that it is not executed again.
use gu_gu_manager.Base.{◌≡◌, String, true, false, some, ◌∷◌, if◌then◌else◌, is_empty}
use gu_gu_manager.Base.Maps.{insert}
use gu_gu_manager.Agent.Journal.{
  Bucket, Outcome, absent, lookup_entry, complete_task, bucket_after, running_entry, evict,
}
use gu_gu_manager.Agent.Tasks.{
  Task, Surroundings, unregistered, Delivered, send_ack, result_frame, send_observed, recovered,
}

-- The error code that a result is sent again with.
abbrev pub settled_code : Outcome → String
settled_code o =
    if o.succeeded then "" else if is_empty o.error_code then "OPERATION_FAILED" else o.error_code

-- A delivery that is answered with a result that is stored, and executes nothing.
abbrev pub resent : Task → Outcome → Bucket → Delivered
resent task o b = record {
  journal = b;
  executed = false;
  frames =
      send_ack true "" task
      ∷ result_frame o.succeeded (settled_code o) o.retryable o.result_json task
      ∷ send_observed o.observed;
}

module _ (task : Task) (w : Surroundings) (b : Bucket)
    (new : lookup_entry task.operation_id b ≡ absent) (alone : w.inflight ≡ unregistered) where
  -- The journal with the record that runs, and what is left of it when the executor is called.
  abbrev written : Bucket
  written = insert task.operation_id (some (running_entry task.digest task.attempt w.started_at)) b

  abbrev recorded : Bucket
  recorded = evict written

-- A delivery of a task that was cut off.
abbrev cut_off : Task → Surroundings → Bucket → Delivered
cut_off task w b = record {
  journal =
      bucket_after b
        (complete_task task.operation_id task.digest task.attempt recovered w.ended_at b);
  executed = false;
  frames = (resent task recovered b).frames;
}
