-- ===== src/Telemetry/Retention.antt =====
-- What the console buffer keeps of the lines that are reported.
use gu_gu_manager.Base.{ℕ, ◌≤◌, ◌<◌, ◌≡◌, Bool, List, [], ◌∷◌, length, All, keep_last}
use gu_gu_manager.Telemetry.Console.{
  ConsoleLine, ConsoleState, console_buffer_limit, record_console_lines,
}

-- A sequence that was given out.
abbrev pub IsBelow : ℕ → ConsoleLine → Type 0
IsBelow next line = (1 ≤ line.sequence) × (line.sequence < next)

-- The buffer shows the last of the lines that were ever published, at most the limit; each has a
-- sequence of its own range, and the next sequence is beyond them all.
pub record IsFaithful (s : ConsoleState) : Type 0 where
  pub shown : s.buffer.lines ≡ keep_last console_buffer_limit s.published
  pub bounded : length s.buffer.lines ≤ console_buffer_limit
  pub given : All (IsBelow s.buffer.next) s.published
  pub positive : 1 ≤ s.buffer.next

-- Reports one after another, each with the answer of the database.
abbrev pub report : List (Bool × List ConsoleLine) → ConsoleState → ConsoleState
report [] s = s
report ((succeeds, lines) ∷ calls) s = report calls (record_console_lines succeeds lines s).0
