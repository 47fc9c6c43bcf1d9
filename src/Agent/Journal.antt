-- ===== src/Agent/Journal.antt =====
-- internal/agent/journal.go. The bucket of the bbolt database is a map; a value that does not decode
-- is `none`. Results and observations, which the journal only stores, are texts. The bucket is there
-- once the journal is open, and an entry always encodes: those error paths have no counterpart.
use gu_gu_manager.Base.{
  ℕ, ◌-◌, String, Bool, false, not, ◌&&◌, Option, none, some, List, [], ◌∷◌, leb, str_eq,
  if◌then◌else◌, length, take, is_empty,
}
use gu_gu_manager.Base.Maps.{Assoc, lookup, insert, remove}

pub record JournalEntry : Type 0 where
  pub digest : String
  pub status : String
  pub attempt : ℕ
  pub checkpoint : String
  pub error_code : String
  pub retryable : Bool
  pub result_json : String
  pub observed : String
  pub updated_at : ℕ

abbrev pub Bucket : Type 0
Bucket = Assoc (Option JournalEntry)

abbrev pub journal_max_entries : ℕ
journal_max_entries = 512

pub data JournalError : Type 0 where
  digest_mismatch not_running undecodable : JournalError

-- A transaction: the error, with the bucket as it was, or the new bucket.
pub data Update : Type 0 where
  rolled_back : JournalError → Update
  committed : Bucket → Update

-- The bucket after a transaction on it.
unfoldable pub bucket_after : Bucket → Update → Bucket
bucket_after b (rolled_back e) = b
bucket_after b (committed b') = b'

-- `Lookup`: none if there is no record, an error if it does not decode.
pub data Lookup : Type 0 where
  absent broken : Lookup
  present : JournalEntry → Lookup

unfoldable pub lookup_entry : String → Bucket → Lookup
unfolding lookup
lookup_entry id b = elim (lookup id b) [
  | none ↦ absent
  | some none ↦ broken
  | some (some entry) ↦ present entry
]

pub record Dated : Type 0 where
  pub key : String
  pub updated_at : ℕ

unfoldable pub dated : Bucket → List Dated
dated [] = []
dated ((key, none) ∷ b) = record { key = key; updated_at = 0 } ∷ dated b
dated ((key, some entry) ∷ b) = record { key = key; updated_at = entry.updated_at } ∷ dated b

-- `sort.Slice` by the time. Go leaves the order of equal times open.
unfoldable pub insert_dated : Dated → List Dated → List Dated
insert_dated d [] = d ∷ []
insert_dated d (e ∷ es) =
    if leb d.updated_at e.updated_at then d ∷ e ∷ es else e ∷ insert_dated d es

unfoldable pub sort_dated : List Dated → List Dated
unfolding insert_dated
sort_dated [] = []
sort_dated (d ∷ ds) = insert_dated d (sort_dated ds)

unfoldable pub delete_dated : List Dated → Bucket → Bucket
unfolding remove
delete_dated [] b = b
delete_dated (d ∷ ds) b = delete_dated ds (remove d.key b)

-- `evictLocked`.
unfoldable pub evict : Bucket → Bucket
unfolding dated sort_dated delete_dated
evict b =
    if leb (length (dated b)) journal_max_entries
    then b
    else delete_dated (take (length (dated b) - journal_max_entries) (sort_dated (dated b))) b

-- A record that decodes and has another digest refuses the task.
unfoldable pub is_mismatch : String → Option (Option JournalEntry) → Bool
unfolding is_empty
is_mismatch digest none = false
is_mismatch digest (some none) = false
is_mismatch digest (some (some existing)) =
    not (is_empty existing.digest) && not (str_eq existing.digest digest)

unfoldable pub running_entry : String → ℕ → ℕ → JournalEntry
running_entry digest attempt now = record {
  digest = digest;
  status = "running";
  attempt = attempt;
  checkpoint = "";
  error_code = "";
  retryable = false;
  result_json = "";
  observed = "";
  updated_at = now;
}

unfoldable pub record_running : String → String → ℕ → ℕ → Bucket → Update
unfolding is_mismatch running_entry evict lookup insert
record_running id digest attempt now b =
    if is_mismatch digest (lookup id b)
    then rolled_back digest_mismatch
    else committed (evict (insert id (some (running_entry digest attempt now)) b))

-- What a task reports at its end.
pub record Outcome : Type 0 where
  pub succeeded : Bool
  pub error_code : String
  pub retryable : Bool
  pub checkpoint : String
  pub result_json : String
  pub observed : String

unfoldable pub final_entry : String → ℕ → Outcome → ℕ → JournalEntry
final_entry digest attempt o now = record {
  digest = digest;
  status = if o.succeeded then "succeeded" else "failed";
  attempt = attempt;
  checkpoint = o.checkpoint;
  error_code = o.error_code;
  retryable = o.retryable;
  result_json = o.result_json;
  observed = o.observed;
  updated_at = now;
}

unfoldable pub complete_task : String → String → ℕ → Outcome → ℕ → Bucket → Update
unfolding final_entry lookup insert
complete_task id digest attempt o now b = elim (lookup id b) [
  | none ↦ rolled_back not_running
  | some none ↦ rolled_back undecodable
  | some (some existing) ↦
      if str_eq existing.digest digest
      then committed (insert id (some (final_entry digest attempt o now)) b)
      else rolled_back digest_mismatch
]
