-- ===== src/Agent/Tests.antt =====
-- Runs of the journal, and the theorems at inputs that meet their hypotheses.
use gu_gu_manager.Base.{◌≡◌, refl, true, false, none, some, List, [], ◌∷◌}
use gu_gu_manager.Agent.Journal.{
  final_entry, Bucket, Outcome, running_entry, record_running, rolled_back, digest_mismatch,
}
use gu_gu_manager.Agent.Tasks.{
  Task, Surroundings, unregistered, execute_task, register_task, send_ack, result_frame,
}
use gu_gu_manager.Agent.Fidelity.{Call, running, completing, run, IsBounded, run-IsBounded}

abbrev done : Outcome
done = record {
  succeeded = true;
  error_code = "";
  retryable = false;
  checkpoint = "";
  result_json = "{}";
  observed = "";
}

abbrev calls : List Call
calls =
    running "o1" "d1" 1 10
    ∷ running "o1" "other" 2 11
    ∷ completing "o1" "d1" 1 done 12
    ∷ completing "o2" "d2" 1 done 13
    ∷ []

run-IsBounded_example : IsBounded (run calls [])
run-IsBounded_example = run-IsBounded calls

abbrev bucket : Bucket
bucket = ("o1", some (running_entry "d1" 1 10)) ∷ []

other_digest : record_running "o1" "other" 2 11 bucket ≡ rolled_back digest_mismatch
unfolding record_running running_entry
other_digest = refl

abbrev task : Task
task = record {
  operation_id = "o1";
  digest = "d1";
  attempt = 1;
  lease_token = "lease";
  connection_epoch = 7;
}

-- The same task, delivered again under another lease.
abbrev redelivered : Task
redelivered = record task { attempt = 2; lease_token = "other" }

abbrev quiet : Surroundings
quiet = record {
  inflight = unregistered;
  resolved = true;
  returned = some done;
  started_at = 10;
  ended_at = 20;
}

abbrev after_first : Bucket
after_first = ("o1", some (final_entry "d1" 1 done 20)) ∷ []

first_delivery : execute_task task quiet [] ≡ record {
  journal = after_first;
  executed = true;
  frames = send_ack true "" task ∷ result_frame true "" false "{}" task ∷ [];
}
unfolding execute_task
first_delivery = refl

-- Between the look at the journal and the registration another worker may deliver the whole task: the
-- look of this one found nothing, and it executes the task once more over the stored result.
overtaken : (register_task redelivered quiet after_first).executed ≡ true
unfolding register_task final_entry
overtaken = refl

other_task : (execute_task (record task { digest = "other" }) quiet after_first).executed ≡ false
unfolding execute_task final_entry
other_task = refl

-- A failed look at the journal stops nothing either.
unreadable : (execute_task task quiet (("o1", none) ∷ [])).executed ≡ true
unfolding execute_task
unreadable = refl
