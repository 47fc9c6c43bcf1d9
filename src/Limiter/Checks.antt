-- ===== src/Limiter/Checks.antt =====
-- What the first loop of `Reserve` finds for a key that is blocked, and for keys that are free.
use gu_gu_manager.Base.{
  ℕ, ◌-◌, ◌≤◌, ◌<◌, ◌≡◌, ◌∙◌, inl, inr, String, true, false, some, List, [], ◌∷◌, arith, Bool-cases,
  Option-cases, str_eq, eq_iff, contains, length,
}
use gu_gu_manager.Base.Maps.{Assoc, lookup, lookup-insert, lookup-remove}
use gu_gu_manager.Limiter.State.{AttemptLimit, AttemptState, is_idle, prune}
use gu_gu_manager.Limiter.Reserve.{Checked, check_state, check_key, check_keys, missing}
use gu_gu_manager.Limiter.Sound.States.{retry_after_blocked, prune_still_free}
use gu_gu_manager.Limiter.Sound.Waits.{wait_of, check_key_covers, check_keys_grows}

module _ (config : AttemptLimit) (now : ℕ) where
  pub prune_still_blocked : (s : AttemptState) → now < s.blocked_until → prune config s now ≡ s
  unfolding prune
  prune_still_blocked s h = ground arith

  pub check_state-lookup :
      (key j : String) (s : AttemptState) (c : Checked)
      → str_eq key j ≡ false
      → lookup j (check_state config now key s c).entries ≡ lookup j c.entries
  unfolding check_state
  check_state-lookup key j s c h =
      ground (arith, lookup-remove key j c.entries, lookup-insert key j s c.entries)

  pub check_key-lookup :
      (key j : String) (c : Checked)
      → str_eq key j ≡ false
      → lookup j (check_key config now key c).entries ≡ lookup j c.entries
  unfolding check_key
  check_key-lookup key j c h = elim (Option-cases (lookup key c.entries)) [
    | inl e ↦ rw (e, check_key)
    | inr (s, e) ↦ rw (e, check_key) (check_state-lookup key j (prune config s now) c h)
  ]

  pub check_state_blocked :
      (key : String) (s : AttemptState) (c : Checked)
      → now < s.blocked_until
      → s.blocked_until - now ≤ (check_state config now key s c).max_retry_after
  unfolding check_state is_idle
  check_state_blocked key s c h = ground (arith, retry_after_blocked config s now h)

  pub check_key_blocked :
      (key : String) (s : AttemptState) (c : Checked)
      → lookup key c.entries ≡ some s
      → now < s.blocked_until
      → s.blocked_until - now ≤ (check_key config now key c).max_retry_after
  unfolding check_key
  check_key_blocked key s c e h =
      rw (e, check_key, prune_still_blocked s h) (check_state_blocked key s c h)

  pub check_keys_blocked :
      (keys : List String) (k : String) (s : AttemptState) (c : Checked)
      → contains k keys ≡ true
      → lookup k c.entries ≡ some s
      → now < s.blocked_until
      → s.blocked_until - now ≤ (check_keys config now keys c).max_retry_after
  unfolding check_keys contains
  check_keys_blocked [] k s c r e h = cc
  check_keys_blocked (key ∷ keys) k s c r e h = elim (Bool-cases (str_eq key k)) [
    | inl same ↦
        let found : lookup key c.entries ≡ some s = rw ((eq_iff key k).0 same) e in
        omega (
          arith,
          check_key_blocked key s c found h,
          check_keys_grows config now keys (check_key config now key c),
        )
    | inr other ↦
        check_keys_blocked keys k s (check_key config now key c) (ground arith)
          (check_key-lookup key k c other ∙ e) h
  ]

  -- If no requested key has to wait, the loop finds no wait.
  pub check_key_free :
      (key : String) (c : Checked)
      → wait_of config now key c.entries ≡ 0
      → c.max_retry_after ≡ 0
      → (check_key config now key c).max_retry_after ≡ 0
  unfolding check_key check_state wait_of
  check_key_free key c w z = elim (Option-cases (lookup key c.entries)) [
    | inl e ↦ rw (e, check_key) z
    | inr (s, e) ↦ rw (e, check_key) (ground (arith, prune_still_free config s now))
  ]

  pub check_keys_free :
      (keys : List String) (c : Checked)
      → ((j : String) → contains j keys ≡ true → wait_of config now j c.entries ≡ 0)
      → c.max_retry_after ≡ 0
      → (check_keys config now keys c).max_retry_after ≡ 0
  unfolding check_keys contains
  check_keys_free [] c w z = z
  check_keys_free (key ∷ keys) c w z =
      let z' = check_key_free key c (w key (ground (arith, eq_iff key key))) z in
      check_keys_free keys (check_key config now key c)
        (λ j r. omega (arith, check_key_covers config now key j c (λ _. ground (arith, w j)), z'))
        z'

pub missing-le : (keys : List String) (m : Assoc AttemptState) → missing keys m ≤ length keys
unfolding missing
missing-le [] m = omega arith
missing-le (k ∷ ks) m = ground (arith, missing-le ks m)
