-- ===== src/Telemetry/Console.antt =====
-- The console buffer of internal/store/console_metrics_buffer.go: `RecordConsoleLines`,
-- `persistConsoleLines` and the loop of `restoreConsoleLines`. The rows of one server in the table
-- console_logs are a list; whether the statements of a transaction succeed is an argument.
use gu_gu_manager.Base.{
  ℕ, ◌+◌, ◌-◌, String, Bool, true, false, Option, none, some, List, [], ◌∷◌, ◌++◌, ltb, leb, ◌==◌,
  if◌then◌else◌, length, take, drop,
}

-- A sequence that is not positive is 0: the code treats all of them alike.
pub record ConsoleLine : Type 0 where
  pub sequence : ℕ
  pub timestamp : ℕ
  pub stream : String
  pub message : String

pub record ConsoleBuffer : Type 0 where
  pub lines : List ConsoleLine
  pub next : ℕ

abbrev pub console_buffer_limit : ℕ
console_buffer_limit = 500

abbrev pub new_console_buffer : ConsoleBuffer
new_console_buffer = record { lines = []; next = 1 }

-- One line of the loop that numbers them: the line, and the next free sequence.
unfoldable pub number_line : ℕ → ConsoleLine → ConsoleLine × ℕ
number_line next line =
    if leb line.sequence 0
    then (record line { sequence = next }, next + 1)
    else if leb next line.sequence
    then (line, line.sequence + 1)
    else (line, next)

unfoldable pub number_lines : ℕ → List ConsoleLine → List ConsoleLine × ℕ
number_lines next [] = ([], next)
number_lines next (line ∷ lines) =
    let (line', next') = number_line next line in
    let (lines', last) = number_lines next' lines in (line' ∷ lines', last)

-- The cut of the buffer.
unfoldable pub trim_lines : List ConsoleLine → List ConsoleLine
trim_lines lines =
    if ltb console_buffer_limit (length lines)
    then drop (length lines - console_buffer_limit) lines
    else lines

-- `ON CONFLICT (server_id, sequence) DO NOTHING`.
unfoldable pub has_sequence : ℕ → List ConsoleLine → Bool
has_sequence n [] = false
has_sequence n (row ∷ rows) = if row.sequence == n then true else has_sequence n rows

-- The rows after the inserts, and those that were inserted.
unfoldable pub insert_rows :
    List ConsoleLine → List ConsoleLine → List ConsoleLine × List ConsoleLine
unfolding has_sequence
insert_rows rows [] = (rows, [])
insert_rows rows (line ∷ lines) =
    if has_sequence line.sequence rows
    then insert_rows rows lines
    else (let (rows', inserted) = insert_rows (rows ++ line ∷ []) lines in (rows', line ∷ inserted))

-- `ORDER BY sequence DESC`.
unfoldable pub insert_descending : ℕ → List ℕ → List ℕ
insert_descending n [] = n ∷ []
insert_descending n (k ∷ ks) = if leb k n then n ∷ k ∷ ks else k ∷ insert_descending n ks

unfoldable pub descending : List ConsoleLine → List ℕ
unfolding insert_descending
descending [] = []
descending (row ∷ rows) = insert_descending row.sequence (descending rows)

-- `SELECT MIN(sequence)`; there is none where there are no rows.
unfoldable pub minimum : List ℕ → Option ℕ
minimum [] = none
minimum (n ∷ ns) = elim (minimum ns) [ none ↦ some n | some k ↦ some (if ltb n k then n else k) ]

unfoldable pub delete_below : ℕ → List ConsoleLine → List ConsoleLine
delete_below cutoff [] = []
delete_below cutoff (row ∷ rows) =
    let rest = delete_below cutoff rows in if ltb row.sequence cutoff then rest else row ∷ rest

-- The statement that deletes the rows below the last `console_buffer_limit`.
unfoldable pub retain_rows : List ConsoleLine → List ConsoleLine
unfolding descending minimum delete_below
retain_rows rows = elim (minimum (take console_buffer_limit (descending rows))) [
  | none ↦ rows
  | some cutoff ↦ delete_below cutoff rows
]

-- The rows of the table, the result that is `none` for an error, and whether to commit.
unfoldable pub persist_console_lines :
    Bool → List ConsoleLine → List ConsoleLine → List ConsoleLine × Option (List ConsoleLine)
unfolding insert_rows retain_rows
persist_console_lines succeeds rows [] = (rows, some [])
persist_console_lines false rows (line ∷ lines) = (rows, none)
persist_console_lines true rows (line ∷ lines) =
    let (rows', inserted) = insert_rows rows (line ∷ lines) in (retain_rows rows', some inserted)

-- The state that one server's lines live in: the table, the buffer, and what was broadcast.
pub record ConsoleState : Type 0 where
  pub rows : List ConsoleLine
  pub buffer : ConsoleBuffer
  pub published : List ConsoleLine

unfoldable pub store_lines :
    ConsoleState → ℕ → List ConsoleLine × Option (List ConsoleLine) → ConsoleState × Bool
unfolding trim_lines
store_lines s next (rows, none) = (record s { rows = rows }, false)
store_lines s next (rows, some inserted) = (
  record {
    rows = rows;
    buffer = record { lines = trim_lines (s.buffer.lines ++ inserted); next = next };
    published = s.published ++ inserted;
  },
  true,
)

-- The new state, and whether the call returned without an error of the database.
unfoldable pub record_console_lines : Bool → List ConsoleLine → ConsoleState → ConsoleState × Bool
unfolding number_lines persist_console_lines store_lines
record_console_lines succeeds [] s = (s, true)
record_console_lines succeeds (line ∷ lines) s =
    let (normalized, next) = number_lines s.buffer.next (line ∷ lines) in
    store_lines s next (persist_console_lines succeeds s.rows normalized)

-- One record of the loop of `restoreConsoleLines`, and the loop, oldest first.
unfoldable pub restore_line : ConsoleLine → ConsoleBuffer → ConsoleBuffer
unfolding trim_lines
restore_line line b = record {
  lines = trim_lines (b.lines ++ line ∷ []);
  next = if leb b.next line.sequence then line.sequence + 1 else b.next;
}

unfoldable pub restore_lines : List ConsoleLine → ConsoleBuffer → ConsoleBuffer
unfolding restore_line
restore_lines [] b = b
restore_lines (line ∷ lines) b = restore_lines lines (restore_line line b)
