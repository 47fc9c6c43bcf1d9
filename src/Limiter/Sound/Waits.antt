-- ===== src/Limiter/Sound/Waits.antt =====
-- The first loop of `Reserve` and the pruning of the map: waits and attempts in flight.
use gu_gu_manager.Base.{
  ℕ, ◌≤◌, ◌≡◌, refl, ◌∙◌, ◌⊎◌, inl, inr, String, true, false, none, some, List, [], ◌∷◌, arith,
  Bool-cases, Option-cases, str_eq, eq_iff, contains,
}
use gu_gu_manager.Base.Maps.{Assoc, lookup, IsDistinct, lookup-insert, lookup-remove}
use gu_gu_manager.Limiter.State.{AttemptLimit, AttemptState, is_idle, prune, retry_after}
use gu_gu_manager.Limiter.Reserve.{Checked, check_state, check_key, check_keys, prune_entries}
use gu_gu_manager.Limiter.Sound.States.{in_flight-prune, prune_still_free}
use gu_gu_manager.Limiter.Sound.Entries.{lookup-prune_entries-none}
use gu_gu_manager.Limiter.Sound.Room.{in_flight_of}

module _ (config : AttemptLimit) (now : ℕ) where
  -- How long the entry of a key has to wait; a key with no entry does not.
  unfoldable pub wait_of : String → Assoc AttemptState → ℕ
  wait_of key m = elim (lookup key m) [ none ↦ 0 | some s ↦ retry_after config s now ]

  idle_in_flight : (s : AttemptState) → is_idle s ≡ true → s.in_flight ≡ 0
  unfolding is_idle
  idle_in_flight s h = ground arith

  -- A wait that the maximum covers stays covered, and the wait of the visited key is covered.
  check_state_covers :
      (key j : String) (s : AttemptState) (c : Checked)
      → (str_eq key j ≡ false → wait_of j c.entries ≤ c.max_retry_after)
      → wait_of j (check_state config now key s c).entries
        ≤ (check_state config now key s c).max_retry_after
  unfolding check_state wait_of
  check_state_covers key j s c h =
      ground (arith, lookup-remove key j c.entries, lookup-insert key j s c.entries, eq_iff key j)

  pub check_key_covers :
      (key j : String) (c : Checked)
      → (str_eq key j ≡ false → wait_of j c.entries ≤ c.max_retry_after)
      → wait_of j (check_key config now key c).entries
        ≤ (check_key config now key c).max_retry_after
  unfolding check_key wait_of
  check_key_covers key j c h = elim (Option-cases (lookup key c.entries)) [
    | inl e ↦ rw (e, check_key) (absent e (Bool-cases (str_eq key j)))
    | inr (s, e) ↦ rw (e, check_key) (check_state_covers key j (prune config s now) c h)
  ]
    where
      absent :
          lookup key c.entries ≡ none
          → (str_eq key j ≡ true) ⊎ (str_eq key j ≡ false)
          → wait_of j c.entries ≤ c.max_retry_after
      absent e (inl same) = rw (← (eq_iff key j).0 same, wait_of, e) (omega arith)
      absent e (inr other) = h other

  -- After the loop the maximum covers the wait of each key that was visited.
  pub check_keys_covers :
      (keys : List String) (j : String) (c : Checked)
      → (contains j keys ≡ false → wait_of j c.entries ≤ c.max_retry_after)
      → wait_of j (check_keys config now keys c).entries
        ≤ (check_keys config now keys c).max_retry_after
  unfolding check_keys contains
  check_keys_covers [] j c h = h refl
  check_keys_covers (key ∷ keys) j c h =
      check_keys_covers keys j (check_key config now key c)
        (λ out. check_key_covers key j c (λ other. h (ground arith)))

  -- The maximum only grows, and so reaches the wait of a key that is blocked.
  check_state_grows :
      (key : String) (s : AttemptState) (c : Checked)
      → c.max_retry_after ≤ (check_state config now key s c).max_retry_after
  unfolding check_state
  check_state_grows key s c = ground arith

  pub check_key_grows :
      (key : String) (c : Checked)
      → c.max_retry_after ≤ (check_key config now key c).max_retry_after
  unfolding check_key
  check_key_grows key c =
      ground (arith, λ (s : AttemptState). check_state_grows key (prune config s now) c)

  pub check_keys_grows :
      (keys : List String) (c : Checked)
      → c.max_retry_after ≤ (check_keys config now keys c).max_retry_after
  unfolding check_keys
  check_keys_grows [] c = omega arith
  check_keys_grows (key ∷ keys) c =
      omega (arith, check_keys_grows keys (check_key config now key c), check_key_grows key c)

  check_state_in_flight :
      (key j : String) (s t : AttemptState) (c : Checked)
      → lookup key c.entries ≡ some t
      → s.in_flight ≡ t.in_flight
      → in_flight_of j (check_state config now key s c).entries ≡ in_flight_of j c.entries
  unfolding check_state in_flight_of
  check_state_in_flight key j s t c e f = ground (
    arith,
    lookup-remove key j c.entries,
    lookup-insert key j s c.entries,
    eq_iff key j,
    idle_in_flight s,
  )

  check_key_in_flight :
      (key j : String) (c : Checked)
      → in_flight_of j (check_key config now key c).entries ≡ in_flight_of j c.entries
  unfolding check_key
  check_key_in_flight key j c = elim (Option-cases (lookup key c.entries)) [
    | inl e ↦ rw (e, check_key)
    | inr (s, e) ↦
        rw (e, check_key)
          (check_state_in_flight key j (prune config s now) s c e (in_flight-prune config s now))
  ]

  pub check_keys_in_flight :
      (keys : List String) (j : String) (c : Checked)
      → in_flight_of j (check_keys config now keys c).entries ≡ in_flight_of j c.entries
  unfolding check_keys
  check_keys_in_flight [] j c = refl
  check_keys_in_flight (key ∷ keys) j c =
      check_keys_in_flight keys j (check_key config now key c) ∙ check_key_in_flight key j c

  pub prune_entries_in_flight :
      (j : String) (m : Assoc AttemptState)
      → IsDistinct m
      → in_flight_of j (prune_entries config now m) ≡ in_flight_of j m
  unfolding prune_entries in_flight_of lookup
  prune_entries_in_flight j [] d = refl
  prune_entries_in_flight j ((k, s) ∷ m) d = ground (
    arith,
    prune_entries_in_flight j m d.1,
    lookup-prune_entries-none config now k m d.0,
    in_flight-prune config s now,
    idle_in_flight (prune config s now),
    eq_iff k j,
  )

  pub prune_entries_wait :
      (j : String) (m : Assoc AttemptState)
      → IsDistinct m
      → wait_of j m ≡ 0
      → wait_of j (prune_entries config now m) ≡ 0
  unfolding prune_entries wait_of lookup
  prune_entries_wait j [] d h = refl
  prune_entries_wait j ((k, s) ∷ m) d h = ground (
    arith,
    prune_entries_wait j m d.1,
    lookup-prune_entries-none config now k m d.0,
    prune_still_free config s now,
    eq_iff k j,
  )
