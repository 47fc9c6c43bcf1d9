-- ===== src/Telemetry/History.antt =====
-- What the history of a server's metrics holds.
use gu_gu_manager.Base.{
  ℕ, suc, ◌+◌, ◌-◌, ◌≤◌, ◌<◌, ◌≡◌, refl, sym, ap, ◌∙◌, subst, inl, inr, List, [], ◌∷◌, ◌++◌, arith,
  ltb, Bool-cases, length, drop, All, All-append, All-drop, length-append, length-drop, drop-append,
}
use gu_gu_manager.Telemetry.Metrics.{
  ServerMetrics, MetricState, metric_history_points, metric_history_window, recent_points,
  trim_points, observed_now, apply_metrics, restored_points, restore_metric_history,
}

-- A point of the window that ends at a time.
abbrev pub IsRecent : ℕ → ServerMetrics → Type 0
IsRecent observed_at point = observed_at < point.observed_at + metric_history_window

recent_points-IsRecent :
    (observed_at : ℕ) (points : List ServerMetrics)
    → All (IsRecent observed_at) (recent_points observed_at points)
unfolding recent_points
recent_points-IsRecent observed_at [] = tt
recent_points-IsRecent observed_at (point ∷ points) =
    ground (arith, recent_points-IsRecent observed_at points)

-- What a report leaves: at most sixty points, all of the window that ends with the report, and the
-- report itself as the last of them and as the current values.
pub record IsUpToDate (point : ServerMetrics) (s : MetricState) : Type 0 where
  pub now : s.current ≡ point
  pub bounded : length s.history ≤ metric_history_points
  pub recent : All (IsRecent point.observed_at) s.history
  pub older : List ServerMetrics
  pub latest : s.history ≡ older ++ point ∷ []

trim_points-last :
    (points : List ServerMetrics) (point : ServerMetrics)
    → trim_points (points ++ point ∷ [])
      ≡ drop (length (points ++ point ∷ []) - metric_history_points) points ++ point ∷ []
unfolding trim_points
trim_points-last points point =
    elim (Bool-cases (ltb metric_history_points (length (points ++ point ∷ [])))) [
      | inl many ↦
          rw (trim_points, many)
            (drop-append (length (points ++ point ∷ []) - metric_history_points) points (point ∷ [])
              (ground (arith, length-append points (point ∷ []))))
      | inr few ↦
          let whole : 0 ≡ length (points ++ point ∷ []) - metric_history_points = ground arith in
          rw (trim_points, few) (ap (λ k. drop k points ++ point ∷ []) whole)
    ]

applied-IsUpToDate :
    (point : ServerMetrics) (points : List ServerMetrics)
    → All (IsRecent point.observed_at) points
    → IsUpToDate point (record { current = point; history = trim_points (points ++ point ∷ []) })
applied-IsUpToDate point points r =
    let cut = length (points ++ point ∷ []) - metric_history_points in
    let last = trim_points-last points point in
    record {
      now = refl;
      bounded =
          subst (λ h. length h ≤ metric_history_points) (sym last)
            (omega (
              arith,
              length-append points (point ∷ []),
              length-append (drop cut points) (point ∷ []),
              length-drop cut points,
            ));
      recent = subst (All (IsRecent point.observed_at)) (sym last) (
          All-append (IsRecent point.observed_at) (drop cut points) (point ∷ [])
            (All-drop (IsRecent point.observed_at) cut points r) (omega arith, tt));
      older = drop cut points;
      latest = last;
    }

-- After a report, whatever the state was: the current values are the report's, the history ends with
-- it, has at most sixty points, and none that is five minutes older than the report or more.
pub apply_metrics-IsUpToDate :
    (now : ℕ) (m : ServerMetrics) (s : MetricState)
    → IsUpToDate (observed_now now m) (apply_metrics now m s)
unfolding apply_metrics
apply_metrics-IsUpToDate now m s =
    applied-IsUpToDate (observed_now now m)
      (recent_points (observed_now now m).observed_at s.history)
      (recent_points-IsRecent (observed_now now m).observed_at s.history)

recent_points-whole :
    (observed_at : ℕ) (points : List ServerMetrics)
    → All (IsRecent observed_at) points
    → recent_points observed_at points ≡ points
unfolding recent_points
recent_points-whole observed_at [] r = refl
recent_points-whole observed_at (point ∷ points) r =
    ground (arith, recent_points-whole observed_at points r.1, r.0)

length-restored_points : (rows : List ServerMetrics) → length (restored_points rows) ≡ length rows
unfolding restored_points
length-restored_points [] = refl
length-restored_points (row ∷ rows) = ap suc (length-restored_points rows)

restored_points-IsRecent :
    (observed_at : ℕ) (rows : List ServerMetrics)
    → All (IsRecent observed_at) rows
    → All (IsRecent observed_at) (restored_points rows)
unfolding restored_points
restored_points-IsRecent observed_at [] r = tt
restored_points-IsRecent observed_at (row ∷ rows) r =
    (r.0, restored_points-IsRecent observed_at rows r.1)

-- The first report after a restart from sixty rows, the newest first and all of the report's window,
-- removes the newest of them: the history is the other rows, still the newest first, and then the
-- report.
pub restored-apply_metrics :
    (now : ℕ) (m current newest : ServerMetrics) (rows : List ServerMetrics)
    → length (newest ∷ rows) ≡ metric_history_points
    → All (IsRecent (observed_now now m).observed_at) (newest ∷ rows)
    → (apply_metrics now m (restore_metric_history current (newest ∷ rows))).history
      ≡ restored_points rows ++ observed_now now m ∷ []
unfolding apply_metrics restore_metric_history restored_points
restored-apply_metrics now m current newest rows full r =
    let t = (observed_now now m).observed_at in
    let all = restored_points (newest ∷ rows) in
    let whole = recent_points-whole t all (restored_points-IsRecent t (newest ∷ rows) r) in
    let one : length (all ++ observed_now now m ∷ []) - metric_history_points ≡ 1 = omega (
      arith,
      length-append all (observed_now now m ∷ []),
      length-restored_points (newest ∷ rows),
    ) in
    ap (λ points. trim_points (points ++ observed_now now m ∷ [])) whole
    ∙ trim_points-last all (observed_now now m)
    ∙ ap (λ k. drop k all ++ observed_now now m ∷ []) one
