-- ===== src/Limiter/Lockout.antt =====
-- When a reservation is refused, and when it is granted.
use gu_gu_manager.Base.{
  ℕ, ◌-◌, ◌≤◌, ◌<◌, ◌≡◌, String, true, false, none, some, List, [], ◌∷◌, arith, contains,
}
use gu_gu_manager.Base.Maps.{lookup}
use gu_gu_manager.Limiter.State.{AttemptState, AttemptLimiter}
use gu_gu_manager.Limiter.Keys.{normalized_limit_keys}
use gu_gu_manager.Limiter.Reserve.{Checked, reserve_checked, reserve_keys, reserve}
use gu_gu_manager.Limiter.Checks.{check_keys_blocked}

-- Reserving is refused as long as one of the requested keys is blocked, with a wait of at least
-- the rest of the block, and no reservation is given out.
pub reserve_blocked :
    (l : AttemptLimiter) (keys : List String) (now : ℕ) (k : String) (s : AttemptState)
    → contains k (normalized_limit_keys keys) ≡ true
    → lookup k l.entries ≡ some s
    → now < s.blocked_until
    → ((reserve l keys now).allowed ≡ false)
      × ((reserve l keys now).reservation ≡ none)
      × (s.blocked_until - now ≤ (reserve l keys now).retry_after)
unfolding reserve
reserve_blocked l keys now k s r e h = refused (normalized_limit_keys keys) r
  where
    refused :
        (ks : List String)
        → contains k ks ≡ true
        → ((reserve_keys l ks now).allowed ≡ false)
          × ((reserve_keys l ks now).reservation ≡ none)
          × (s.blocked_until - now ≤ (reserve_keys l ks now).retry_after)
    refused [] r = unfold contains in cc
    refused (x ∷ xs) r =
        let start : Checked = record { entries = l.entries; max_retry_after = 0 } in
        let wait = check_keys_blocked l.config now (x ∷ xs) k s start r e h in
        unfold reserve_keys reserve_checked in ground (arith, wait)
