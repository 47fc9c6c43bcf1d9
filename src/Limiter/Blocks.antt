-- ===== src/Limiter/Blocks.antt =====
-- The failure that blocks a key.
use gu_gu_manager.Base.{
  ℕ, ◌+◌, ◌-◌, ◌≤◌, ◌<◌, ◌≡◌, refl, ◌∙◌, inl, inr, String, true, false, some, List, [], ◌∷◌, arith,
  Bool-cases, Option-cases, str_eq, eq_iff, contains, length, length-append,
}
use gu_gu_manager.Base.Maps.{Assoc, lookup, lookup-insert, lookup-remove}
use gu_gu_manager.Limiter.State.{AttemptLimit, AttemptState, is_idle, prune, store_or_delete}
use gu_gu_manager.Limiter.Complete.{
  failure, settle, record_failure, complete_state, complete_key, complete_keys,
}
use gu_gu_manager.Limiter.Sound.Admit.{AreOnce}

module _ (config : AttemptLimit) (now : ℕ) where
  pub store_or_delete-lookup :
      (key j : String) (s : AttemptState) (m : Assoc AttemptState)
      → str_eq key j ≡ false
      → lookup j (store_or_delete key s m) ≡ lookup j m
  unfolding store_or_delete
  store_or_delete-lookup key j s m h =
      ground (arith, lookup-remove key j m, lookup-insert key j s m)

  pub complete_key-lookup :
      (key j : String) (m : Assoc AttemptState)
      → str_eq key j ≡ false
      → lookup j (complete_key config failure [] now key m) ≡ lookup j m
  unfolding complete_key
  complete_key-lookup key j m h = elim (Option-cases (lookup key m)) [
    | inl e ↦ rw (e, complete_key)
    | inr (s, e) ↦ rw (e, complete_key) (store_or_delete-lookup key j _ m h)
  ]

  pub complete_keys-lookup :
      (keys : List String) (j : String) (m : Assoc AttemptState)
      → contains j keys ≡ false
      → lookup j (complete_keys config failure [] now keys m) ≡ lookup j m
  unfolding complete_keys contains
  complete_keys-lookup [] j m h = refl
  complete_keys-lookup (key ∷ keys) j m h =
      complete_keys-lookup keys j (complete_key config failure [] now key m) (ground arith)
      ∙ complete_key-lookup key j m (ground arith)

  -- A record that the maximum of failures reaches.
  unfoldable pub IsLastStraw : AttemptState → Type 0
  IsLastStraw s =
      (s.blocked_until ≤ now) × (config.maximum ≤ length (prune config s now).failures + 1)

  pub record_failure_blocks :
      (s : AttemptState)
      → s.blocked_until ≡ 0
      → config.maximum ≤ length s.failures + 1
      → (record_failure config now s).blocked_until ≡ now + config.block_for
  unfolding record_failure
  record_failure_blocks s b h = ground (arith, length-append s.failures (now ∷ []))

  pub complete_state_blocks :
      (s : AttemptState)
      → IsLastStraw s
      → (complete_state config failure false now (prune config s now)).blocked_until
        ≡ now + config.block_for
  unfolding IsLastStraw complete_state settle
  complete_state_blocks s straw =
      record_failure_blocks
        (record (prune config s now) { in_flight = (prune config s now).in_flight - 1 })
        (unfold prune in ground arith) straw.1

  pub store_or_delete_blocked :
      (key : String) (s : AttemptState) (m : Assoc AttemptState)
      → 0 < s.blocked_until
      → lookup key (store_or_delete key s m) ≡ some s
  unfolding store_or_delete is_idle
  store_or_delete_blocked key s m h = ground (arith, lookup-insert key key s m, eq_iff key key)

  pub complete_key_blocks :
      (key : String) (s : AttemptState) (m : Assoc AttemptState)
      → 0 < config.block_for
      → lookup key m ≡ some s
      → IsLastStraw s
      → (t : AttemptState) × (lookup key (complete_key config failure [] now key m) ≡ some t)
        × (t.blocked_until ≡ now + config.block_for)
  unfolding complete_key contains
  complete_key_blocks key s m pos e straw =
      let t = complete_state config failure false now (prune config s now) in
      let until = complete_state_blocks s straw in
      (t, rw (e, complete_key) (store_or_delete_blocked key t m (omega arith)), until)

  pub complete_keys_blocks :
      (keys : List String) (k : String) (s : AttemptState) (m : Assoc AttemptState)
      → 0 < config.block_for
      → AreOnce keys
      → contains k keys ≡ true
      → lookup k m ≡ some s
      → IsLastStraw s
      → (t : AttemptState) × (lookup k (complete_keys config failure [] now keys m) ≡ some t)
        × (t.blocked_until ≡ now + config.block_for)
  unfolding complete_keys contains
  complete_keys_blocks [] k s m pos o r e straw = absurd (ground arith)
  complete_keys_blocks (key ∷ keys) k s m pos o r e straw = elim (Bool-cases (str_eq key k)) [
    | inl same ↦
        let eq : key ≡ k = (eq_iff key k).0 same in
        let found : lookup key m ≡ some s = rw eq e in
        let (t, stored, until) = complete_key_blocks key s m pos found straw in
        (
          t,
          rw (← eq) (
              complete_keys-lookup keys key (complete_key config failure [] now key m) o.0
              ∙ stored),
          until,
        )
    | inr other ↦
        complete_keys_blocks keys k s (complete_key config failure [] now key m) pos o.1
          (ground arith) (complete_key-lookup key k m other ∙ e) straw
  ]
