-- ===== src/Limiter/Sound/Entries.antt =====
-- The loops over the keys keep every record good, the keys distinct and the map no larger.
use gu_gu_manager.Base.{
  ℕ, ◌≤◌, ◌≡◌, refl, inl, inr, String, none, some, List, [], ◌∷◌, arith, length, Bool-cases,
  Option-cases,
}
use gu_gu_manager.Base.Maps.{
  Assoc, lookup, insert, remove, IsDistinct, AllValues, insert-IsDistinct, remove-IsDistinct,
  length-insert, length-remove, insert-AllValues, remove-AllValues, lookup-AllValues,
}
use gu_gu_manager.Limiter.State.{AttemptLimit, AttemptState, is_idle, prune, store_or_delete}
use gu_gu_manager.Limiter.Reserve.{Checked, check_state, check_key, check_keys, prune_entries}
use gu_gu_manager.Limiter.Complete.{
  CompletionKind, complete_key, complete_keys, reset_key, reset_keys,
}
use gu_gu_manager.Limiter.Sound.States.{
  IsTame, IsGood, prune-IsTame, prune_blocked, clear_failures-IsTame, complete_state-IsTame,
}

-- The records and the keys of a map, and a bound on its size.
pub record IsSound (config : AttemptLimit) (n : ℕ) (m : Assoc AttemptState) : Type 0 where
  pub states : AllValues (IsGood config) m
  pub distinct : IsDistinct m
  pub sized : length m ≤ n

module _ (config : AttemptLimit) (n : ℕ) where
  pub remove-IsSound :
      (key : String) (m : Assoc AttemptState) → IsSound config n m → IsSound config n (remove key m)
  remove-IsSound key m v = record {
    states = remove-AllValues (IsGood config) key m v.states;
    distinct = remove-IsDistinct key m v.distinct;
    sized = ground (arith, length-remove key m v.distinct, v.sized);
  }

  -- An entry that is there is replaced.
  pub replace-IsSound :
      (key : String) (s t : AttemptState) (m : Assoc AttemptState)
      → lookup key m ≡ some t
      → IsGood config s
      → IsSound config n m
      → IsSound config n (insert key s m)
  replace-IsSound key s t m e g v = record {
    states = insert-AllValues (IsGood config) key s m g v.states;
    distinct = insert-IsDistinct key s m v.distinct;
    sized = ground (arith, length-insert key s m, v.sized);
  }

  IsTame-of_lookup :
      (key : String) (s : AttemptState) (m : Assoc AttemptState)
      → IsSound config n m
      → lookup key m ≡ some s
      → IsTame config s
  IsTame-of_lookup key s m v e = ground (arith, lookup-AllValues (IsGood config) key s m v.states)

  pub store_or_delete-IsSound :
      (key : String) (s t : AttemptState) (m : Assoc AttemptState)
      → lookup key m ≡ some t
      → IsTame config s
      → IsSound config n m
      → IsSound config n (store_or_delete key s m)
  unfolding store_or_delete
  store_or_delete-IsSound key s t m e h v = elim (Bool-cases (is_idle s)) [
    | inl idle ↦ rw (idle, store_or_delete) (remove-IsSound key m v)
    | inr live ↦
        rw (live, store_or_delete)
          (replace-IsSound key s t m e
            (record { bounded = h.bounded; exclusive = h.exclusive; live = live }) v)
  ]

  module _ (now : ℕ) where
    check_state-IsSound :
        (key : String) (s t : AttemptState) (c : Checked)
        → lookup key c.entries ≡ some t
        → IsTame config s
        → IsSound config n c.entries
        → IsSound config n (check_state config now key s c).entries
    unfolding check_state
    check_state-IsSound key s t c e h v = elim (Bool-cases (is_idle s)) [
      | inl idle ↦ rw (idle, check_state) (remove-IsSound key c.entries v)
      | inr live ↦
          rw (live, check_state)
            (replace-IsSound key s t c.entries e
              (record { bounded = h.bounded; exclusive = h.exclusive; live = live }) v)
    ]

    check_key-IsSound :
        (key : String) (c : Checked)
        → IsSound config n c.entries
        → IsSound config n (check_key config now key c).entries
    unfolding check_key
    check_key-IsSound key c v = elim (Option-cases (lookup key c.entries)) [
      | inl e ↦ rw (e, check_key) v
      | inr (s, e) ↦
          rw (e, check_key)
            (check_state-IsSound key (prune config s now) s c e
              (prune-IsTame config s now (IsTame-of_lookup key s c.entries v e)) v)
    ]

    pub check_keys-IsSound :
        (keys : List String) (c : Checked)
        → IsSound config n c.entries
        → IsSound config n (check_keys config now keys c).entries
    unfolding check_keys
    check_keys-IsSound [] c v = v
    check_keys-IsSound (key ∷ keys) c v =
        check_keys-IsSound keys (check_key config now key c) (check_key-IsSound key c v)

    module _ (kind : CompletionKind) (cleared : List String) where
      complete_key-IsSound :
          (key : String) (m : Assoc AttemptState)
          → IsSound config n m
          → IsSound config n (complete_key config kind cleared now key m)
      unfolding complete_key
      complete_key-IsSound key m v = elim (Option-cases (lookup key m)) [
        | inl e ↦ rw (e, complete_key) v
        | inr (s, e) ↦
            rw (e, complete_key)
              (store_or_delete-IsSound key _ s m e
                (complete_state-IsTame config kind _ now _ (prune_blocked config s now)
                  (prune-IsTame config s now (IsTame-of_lookup key s m v e)))
                v)
      ]

      pub complete_keys-IsSound :
          (keys : List String) (m : Assoc AttemptState)
          → IsSound config n m
          → IsSound config n (complete_keys config kind cleared now keys m)
      unfolding complete_keys
      complete_keys-IsSound [] m v = v
      complete_keys-IsSound (key ∷ keys) m v =
          complete_keys-IsSound keys (complete_key config kind cleared now key m)
            (complete_key-IsSound key m v)

    reset_key-IsSound :
        (key : String) (m : Assoc AttemptState)
        → IsSound config n m
        → IsSound config n (reset_key config now key m)
    unfolding reset_key
    reset_key-IsSound key m v = elim (Option-cases (lookup key m)) [
      | inl e ↦ rw (e, reset_key) v
      | inr (s, e) ↦
          rw (e, reset_key)
            (store_or_delete-IsSound key _ s m e
              (clear_failures-IsTame config _
                (prune-IsTame config s now (IsTame-of_lookup key s m v e)))
              v)
    ]

    pub reset_keys-IsSound :
        (keys : List String) (m : Assoc AttemptState)
        → IsSound config n m
        → IsSound config n (reset_keys config now keys m)
    unfolding reset_keys
    reset_keys-IsSound [] m v = v
    reset_keys-IsSound (key ∷ keys) m v =
        reset_keys-IsSound keys (reset_key config now key m) (reset_key-IsSound key m v)

module _ (config : AttemptLimit) (now : ℕ) where
  pub lookup-prune_entries-none :
      (key : String) (m : Assoc AttemptState)
      → lookup key m ≡ none
      → lookup key (prune_entries config now m) ≡ none
  unfolding lookup prune_entries
  lookup-prune_entries-none key [] h = refl
  lookup-prune_entries-none key ((k, s) ∷ m) h = ground (arith, lookup-prune_entries-none key m)

  prune_entries-IsDistinct :
      (m : Assoc AttemptState) → IsDistinct m → IsDistinct (prune_entries config now m)
  unfolding prune_entries
  prune_entries-IsDistinct [] d = tt
  prune_entries-IsDistinct ((k, s) ∷ m) d =
      ground (arith, prune_entries-IsDistinct m d.1, lookup-prune_entries-none k m)

  prune_entries-AllValues :
      (m : Assoc AttemptState)
      → AllValues (IsGood config) m
      → AllValues (IsGood config) (prune_entries config now m)
  unfolding prune_entries
  prune_entries-AllValues [] h = tt
  prune_entries-AllValues ((k, s) ∷ m) h =
      let kept =
        prune-IsTame config s now (record { bounded = h.0.bounded; exclusive = h.0.exclusive }) in
      ground (arith, prune_entries-AllValues m h.1, kept)

  length-prune_entries : (m : Assoc AttemptState) → length (prune_entries config now m) ≤ length m
  unfolding prune_entries
  length-prune_entries [] = omega arith
  length-prune_entries ((k, s) ∷ m) = ground (arith, length-prune_entries m)

  pub prune_entries-IsSound :
      (n : ℕ) (m : Assoc AttemptState)
      → IsSound config n m
      → IsSound config n (prune_entries config now m)
  prune_entries-IsSound n m v = record {
    states = prune_entries-AllValues m v.states;
    distinct = prune_entries-IsDistinct m v.distinct;
    sized = omega (arith, length-prune_entries m, v.sized);
  }
