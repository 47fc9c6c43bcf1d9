-- ===== src/Telemetry/Tests.antt =====
-- Runs of the console buffer, the hub and the metrics, and the theorems at inputs that meet their
-- hypotheses.
use gu_gu_manager.Base.{ℕ, ◌≡◌, refl, Bool, true, false, List, [], ◌∷◌, ◌++◌, arith, keep_last, All}
use gu_gu_manager.Telemetry.Console.{ConsoleLine, ConsoleState, new_console_buffer}
use gu_gu_manager.Telemetry.Hub.{offer_all}
use gu_gu_manager.Telemetry.Window.{offer_all-keep_last}
use gu_gu_manager.Telemetry.Metrics.{
  ServerMetrics, observed_now, apply_metrics, restored_points, restore_metric_history,
}
use gu_gu_manager.Telemetry.History.{
  IsRecent, IsUpToDate, apply_metrics-IsUpToDate, restored-apply_metrics,
}

abbrev line : ℕ → ConsoleLine
line n = record { sequence = n; timestamp = 9; stream = "stdout"; message = "hello" }

abbrev reports : List (Bool × List ConsoleLine)
reports = (true, line 0 ∷ line 7 ∷ []) ∷ (false, line 0 ∷ []) ∷ (true, line 7 ∷ line 0 ∷ []) ∷ []

abbrev empty_state : ConsoleState
empty_state = record { rows = []; buffer = new_console_buffer; published = [] }

offer_all-keep_last_example :
    offer_all 2 (line 1 ∷ []) (line 2 ∷ line 3 ∷ []) ≡ keep_last 2 (line 1 ∷ line 2 ∷ line 3 ∷ [])
offer_all-keep_last_example =
    offer_all-keep_last 2 (line 1 ∷ []) (line 2 ∷ line 3 ∷ []) (omega arith) (omega arith)

abbrev point : ℕ → ServerMetrics
point t = record { server_id = "s1"; cpu_percent = 4; memory_bytes = 8; observed_at = t }

apply_metrics-IsUpToDate_example :
    IsUpToDate
      (observed_now 9 (point 5))
      (apply_metrics 9 (point 5) (record { current = point 4; history = point 4 ∷ [] }))
apply_metrics-IsUpToDate_example =
    apply_metrics-IsUpToDate 9 (point 5) (record { current = point 4; history = point 4 ∷ [] })

-- Points at the times below a number, the newest first.
abbrev points_below : ℕ → List ServerMetrics
points_below ℕ.zero = []
points_below (ℕ.suc n) = point n ∷ points_below n

points_below-IsRecent : (n : ℕ) → All (IsRecent 100) (points_below n)
points_below-IsRecent ℕ.zero = tt
points_below-IsRecent (ℕ.suc n) = (omega arith, points_below-IsRecent n)

restored-apply_metrics_example :
    (apply_metrics 9
      (point 100)
      (restore_metric_history (point 59) (point 59 ∷ points_below 59))).history
    ≡ restored_points (points_below 59) ++ observed_now 9 (point 100) ∷ []
unfolding observed_now
restored-apply_metrics_example =
    restored-apply_metrics 9 (point 100) (point 59) (point 59) (points_below 59) refl
      (points_below-IsRecent 60)
