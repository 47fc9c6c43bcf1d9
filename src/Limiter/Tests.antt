-- ===== src/Limiter/Tests.antt =====
-- Runs of the limiter of login_limiter.go, and the theorems at inputs that meet their hypotheses.
use gu_gu_manager.Base.{◌≤◌, ◌≡◌, refl, false, none, some, [], ◌∷◌, arith, contains, ◌-◌}
use gu_gu_manager.Base.Maps.{lookup, insert}
use gu_gu_manager.Limiter.State.{
  AttemptLimit, AttemptState, AttemptLimiter, new_attempt_limiter, prune, retry_after, is_idle,
}
use gu_gu_manager.Limiter.Keys.{normalized_limit_keys}
use gu_gu_manager.Limiter.Reserve.{
  reserve, reserve_keys, reserve_checked, check_keys, check_key, check_state, ensure_capacity,
  prune_entries, make_room, missing,
}
use gu_gu_manager.Limiter.Complete.{failure}
use gu_gu_manager.Limiter.Sound.Room.{in_flight_of}
use gu_gu_manager.Limiter.Budget.{IsWithinBudget, reserves, completes, resets, run, run_from_new}
use gu_gu_manager.Limiter.Ledger.{
  Session, Reach, reserving, here, next, fresh, open_count, in_flight-open_count,
}
use gu_gu_manager.Limiter.Lockout.{reserve_blocked}

abbrev limit : AttemptLimit
limit = record { maximum = 2; window = 100; block_for = 50; capacity = 2 }

abbrev start : AttemptLimiter
start = record { config = limit; entries = [] }

abbrev failed_once : AttemptState
failed_once = record {
  failures = 10 ∷ [];
  blocked_until = 0;
  last_failure = 10;
  last_activity = 20;
  in_flight = 1;
}

abbrev busy : AttemptLimiter
busy = record { config = limit; entries = ("ip", failed_once) ∷ [] }

abbrev blocked : AttemptState
blocked = record failed_once { failures = []; blocked_until = 70; in_flight = 0 }

accepted : new_attempt_limiter limit ≡ some start
unfolding new_attempt_limiter
accepted = refl

-- The second failure within the window blocks, the reservation in between is refused.
full_run : (reserve busy ("user" ∷ " ip " ∷ []) 20).allowed ≡ false
unfolding reserve normalized_limit_keys reserve_keys reserve_checked check_keys check_key
    check_state prune retry_after lookup insert is_idle contains
full_run = refl

run_from_new_example : IsWithinBudget (
    run start (
      (1, reserves ("a" ∷ "b" ∷ []))
      ∷ (2, completes ("a" ∷ "b" ∷ []) failure [])
      ∷ (3, reserves ("c" ∷ []))
      ∷ (4, resets ("a" ∷ []))
      ∷ []))
run_from_new_example = run_from_new limit start _ accepted

abbrev reserved : Session
reserved = record {
  limiter = (reserve start ("a" ∷ []) 1).limiter;
  reservations = record { keys = "a" ∷ []; is_done = false } ∷ [];
}

one_step : Reach (fresh start) reserved
unfolding reserve normalized_limit_keys reserve_keys reserve_checked check_keys check_key lookup
    ensure_capacity prune_entries make_room missing contains
one_step = next here (reserving ("a" ∷ []) 1 refl)

in_flight-open_count_example :
    in_flight_of "a" reserved.limiter.entries ≡ open_count "a" reserved.reservations
in_flight-open_count_example = in_flight-open_count limit start reserved accepted one_step "a"

reserve_blocked_example :
    ((reserve (record busy { entries = ("ip", blocked) ∷ [] }) ("ip" ∷ []) 30).allowed ≡ false)
    × ((reserve (record busy { entries = ("ip", blocked) ∷ [] }) ("ip" ∷ []) 30).reservation ≡ none)
    × (70 - 30
        ≤ (reserve (record busy { entries = ("ip", blocked) ∷ [] }) ("ip" ∷ []) 30).retry_after)
unfolding normalized_limit_keys contains lookup
reserve_blocked_example =
    reserve_blocked (record busy { entries = ("ip", blocked) ∷ [] }) ("ip" ∷ []) 30 "ip" blocked
      refl refl (omega arith)
