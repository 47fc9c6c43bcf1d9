-- ===== src/Telemetry/Metrics.antt =====
-- The metrics of internal/store/console_metrics_buffer.go: `ApplyServerMetrics` and
-- `restoreMetricHistory`. A point keeps the fields that the history uses; the rows of
-- server_metric_history are an argument, in the order of the query: the newest first.
use gu_gu_manager.Base.{
  ℕ, ◌+◌, ◌-◌, String, Bool, true, false, List, [], ◌∷◌, ◌++◌, ltb, ◌==◌, if◌then◌else◌, length,
  drop, is_empty, none, some,
}
use gu_gu_manager.Base.Maps.{Assoc, lookup, insert}

-- The CPU share is a count of hundredths of a percent.
pub record ServerMetrics : Type 0 where
  pub server_id : String
  pub cpu_percent : ℕ
  pub memory_bytes : ℕ
  pub observed_at : ℕ

pub record MetricState : Type 0 where
  pub current : ServerMetrics
  pub history : List ServerMetrics

abbrev pub metric_history_points : ℕ
metric_history_points = 60

-- Five minutes.
abbrev pub metric_history_window : ℕ
metric_history_window = 300000000000

abbrev pub no_metrics : ServerMetrics
no_metrics = record { server_id = ""; cpu_percent = 0; memory_bytes = 0; observed_at = 0 }

abbrev pub new_metric_state : MetricState
new_metric_state = record { current = no_metrics; history = [] }

-- `point.ObservedAt.After(cutoff)`, where the cutoff is the window before `observed_at`.
unfoldable pub is_recent : ℕ → ServerMetrics → Bool
is_recent observed_at point = ltb observed_at (point.observed_at + metric_history_window)

unfoldable pub recent_points : ℕ → List ServerMetrics → List ServerMetrics
unfolding is_recent
recent_points observed_at [] = []
recent_points observed_at (point ∷ points) =
    let rest = recent_points observed_at points in
    if is_recent observed_at point then point ∷ rest else rest

unfoldable pub trim_points : List ServerMetrics → List ServerMetrics
trim_points points =
    if ltb metric_history_points (length points)
    then drop (length points - metric_history_points) points
    else points

-- A report without a time is observed now.
unfoldable pub observed_now : ℕ → ServerMetrics → ServerMetrics
observed_now now m = if m.observed_at == 0 then record m { observed_at = now } else m

-- The lines between the lock and the unlock.
unfoldable pub apply_metrics : ℕ → ServerMetrics → MetricState → MetricState
unfolding observed_now recent_points trim_points
apply_metrics now m s =
    let point = observed_now now m in
    record {
      current = point;
      history = trim_points (recent_points point.observed_at s.history ++ point ∷ []);
    }

-- `metricStateFor`: the state of a server, new if there is none.
unfoldable pub metric_state_for : String → Assoc MetricState → MetricState
unfolding lookup
metric_state_for server_id states = elim (lookup server_id states) [
  | none ↦ new_metric_state
  | some s ↦ s
]

-- The loop over a batch, with the answer of `persistMetrics` for each report: it ends at an error.
unfoldable pub apply_server_metrics :
    ℕ → List (ServerMetrics × Bool) → Assoc MetricState → Assoc MetricState × Bool
unfolding apply_metrics metric_state_for insert is_empty
apply_server_metrics now [] states = (states, true)
apply_server_metrics now ((m, persisted) ∷ batch) states =
    let states' =
      insert m.server_id (apply_metrics now m (metric_state_for m.server_id states)) states in
    let skipped = apply_server_metrics now batch states in
    let rest = apply_server_metrics now batch states' in
    if is_empty m.server_id then skipped else if persisted then rest else (states', false)

unfoldable pub restored_points : List ServerMetrics → List ServerMetrics
restored_points [] = []
restored_points (row ∷ rows) =
    record no_metrics {
      cpu_percent = row.cpu_percent;
      memory_bytes = row.memory_bytes;
      observed_at = row.observed_at;
    }
    ∷ restored_points rows

-- The state after a restart: the rows in the order of the query.
unfoldable pub restore_metric_history : ServerMetrics → List ServerMetrics → MetricState
unfolding restored_points
restore_metric_history current rows = record { current = current; history = restored_points rows }
