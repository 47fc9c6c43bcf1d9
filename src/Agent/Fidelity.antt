-- ===== src/Agent/Fidelity.antt =====
-- What the journal promises the worker that asks it before it runs a task.
use gu_gu_manager.Base.{
  ℕ, ◌≤◌, ◌≡◌, inl, inr, String, Option, none, some, List, [], ◌∷◌, arith, length, Bool-cases,
  Option-cases, str_eq,
}
use gu_gu_manager.Base.Maps.{lookup, insert, IsDistinct, length-insert, insert-IsDistinct}
use gu_gu_manager.Agent.Journal.{
  JournalEntry, Bucket, Update, bucket_after, Outcome, is_mismatch, running_entry, final_entry,
  record_running, complete_task, journal_max_entries,
}
use gu_gu_manager.Agent.Eviction.{evict-IsDistinct, length-evict}

-- A call on the journal at a time.
pub data Call : Type 0 where
  running : (id digest : String) (attempt now : ℕ) → Call
  completing : (id digest : String) (attempt : ℕ) (o : Outcome) (now : ℕ) → Call

abbrev pub update : Call → Bucket → Update
update (running id digest attempt now) b = record_running id digest attempt now b
update (completing id digest attempt o now) b = complete_task id digest attempt o now b

abbrev pub run : List Call → Bucket → Bucket
run [] b = b
run (c ∷ cs) b = run cs (bucket_after b (update c b))

-- Each operation has one record, and there are at most `journal_max_entries`.
pub record IsBounded (b : Bucket) : Type 0 where
  pub distinct : IsDistinct b
  pub few : length b ≤ journal_max_entries

record_running-IsBounded :
    (id digest : String) (attempt now : ℕ) (b : Bucket)
    → IsBounded b
    → IsBounded (bucket_after b (record_running id digest attempt now b))
unfolding record_running bucket_after
record_running-IsBounded id digest attempt now b v =
    let more = insert id (some (running_entry digest attempt now)) b in
    let distinct = insert-IsDistinct id (some (running_entry digest attempt now)) b v.distinct in
    elim (Bool-cases (is_mismatch digest (lookup id b))) [
      | inl other ↦ rw (record_running, other) v
      | inr same ↦
          rw (record_running, same)
            (record { distinct = evict-IsDistinct more distinct; few = length-evict more distinct })
    ]

complete_task-IsBounded :
    (id digest : String) (attempt : ℕ) (o : Outcome) (now : ℕ) (b : Bucket)
    → IsBounded b
    → IsBounded (bucket_after b (complete_task id digest attempt o now b))
unfolding complete_task bucket_after
complete_task-IsBounded id digest attempt o now b v = elim (Option-cases (lookup id b)) [
  | inl unknown ↦ rw (complete_task, unknown) v
  | inr (none, there) ↦ rw (complete_task, there) v
  | inr (some e, there) ↦ elim (Bool-cases (str_eq e.digest digest)) [
    | inr other ↦ rw (complete_task, there, other) v
    | inl same ↦
        let final = some (final_entry digest attempt o now) in
        rw (complete_task, there, same)
          (record {
            distinct = insert-IsDistinct id final b v.distinct;
            few = ground (arith, length-insert id final b, there, v.few);
          })
  ]
]

update-IsBounded : (c : Call) (b : Bucket) → IsBounded b → IsBounded (bucket_after b (update c b))
update-IsBounded (running id digest attempt now) b v =
    record_running-IsBounded id digest attempt now b v
update-IsBounded (completing id digest attempt o now) b v =
    complete_task-IsBounded id digest attempt o now b v

run_keeps : (cs : List Call) (b : Bucket) → IsBounded b → IsBounded (run cs b)
run_keeps [] b v = v
run_keeps (c ∷ cs) b v = run_keeps cs _ (update-IsBounded c b v)

-- From an empty journal, after any calls at any times, refused ones too: each operation has at most
-- one record, and there are at most 512 records.
pub run-IsBounded : (cs : List Call) → IsBounded (run cs [])
run-IsBounded cs = run_keeps cs [] (record { distinct = tt; few = omega arith })

-- The digest under which an operation is recorded, if there is a record that decodes.
abbrev pub HasDigest : String → Option (Option JournalEntry) → Type 0
HasDigest digest none = Unit
HasDigest digest (some none) = Unit
HasDigest digest (some (some e)) = e.digest ≡ digest

abbrev digest_of : Option (Option JournalEntry) → String
digest_of (some (some e)) = e.digest
digest_of _ = ""
