-- ===== src/Limiter/Flight.antt =====
-- The attempts in flight of a key through a completion and a reset.
use gu_gu_manager.Base.{
  ℕ, ◌-◌, ◌≡◌, refl, ◌∙◌, inl, inr, String, Bool, true, none, some, List, [], ◌∷◌, arith,
  Option-cases, str_eq, eq_iff, contains, if◌then◌else◌,
}
use gu_gu_manager.Base.Maps.{Assoc, lookup, lookup-insert, lookup-remove}
use gu_gu_manager.Limiter.State.{AttemptState, AttemptLimit, is_idle, prune, store_or_delete}
use gu_gu_manager.Limiter.Complete.{
  CompletionKind, cancel, failure, success, clear_failures, complete_state, complete_key,
  complete_keys, reset_key, reset_keys,
}
use gu_gu_manager.Limiter.Sound.States.{in_flight-prune}
use gu_gu_manager.Limiter.Sound.Room.{in_flight_of}
use gu_gu_manager.Limiter.Sound.Admit.{AreOnce}

pub idle_in_flight : (s : AttemptState) → is_idle s ≡ true → s.in_flight ≡ 0
unfolding is_idle
idle_in_flight s h = ground arith

pub in_flight_of-store_or_delete :
    (key j : String) (s : AttemptState) (m : Assoc AttemptState)
    → in_flight_of j (store_or_delete key s m)
      ≡ (if str_eq key j then s.in_flight else in_flight_of j m)
unfolding in_flight_of store_or_delete
in_flight_of-store_or_delete key j s m =
    ground (arith, lookup-insert key j s m, lookup-remove key j m, idle_in_flight s)

pub in_flight-complete_state :
    (config : AttemptLimit) (kind : CompletionKind) (cleared : Bool) (now : ℕ) (s : AttemptState)
    → (complete_state config kind cleared now s).in_flight ≡ s.in_flight - 1
unfolding complete_state
in_flight-complete_state config cancel cleared now s = refl
in_flight-complete_state config failure cleared now s = ground arith
in_flight-complete_state config success cleared now s = ground arith

pub in_flight_of-some :
    (key : String) (s : AttemptState) (m : Assoc AttemptState)
    → lookup key m ≡ some s
    → in_flight_of key m ≡ s.in_flight
unfolding in_flight_of
in_flight_of-some key s m e = ground arith

pub in_flight_of-none :
    (key : String) (m : Assoc AttemptState) → lookup key m ≡ none → in_flight_of key m ≡ 0
unfolding in_flight_of
in_flight_of-none key m e = ground arith

module _ (config : AttemptLimit) (now : ℕ) where
  pub complete_key-in_flight :
      (kind : CompletionKind) (cleared : List String) (key j : String) (m : Assoc AttemptState)
      → in_flight_of j (complete_key config kind cleared now key m)
        ≡ in_flight_of j m - (if str_eq key j then 1 else 0)
  unfolding complete_key
  complete_key-in_flight kind cleared key j m = elim (Option-cases (lookup key m)) [
    | inl e ↦ rw (e, complete_key) (ground (arith, in_flight_of-none key m e, eq_iff key j))
    | inr (s, e) ↦
        let s' = complete_state config kind (contains key cleared) now (prune config s now) in
        rw (e, complete_key)
          (ground (
            arith,
            in_flight_of-store_or_delete key j s' m,
            in_flight-complete_state config kind (contains key cleared) now (prune config s now),
            in_flight-prune config s now,
            in_flight_of-some key s m e,
            eq_iff key j,
          ))
  ]

  pub complete_keys-in_flight :
      (kind : CompletionKind) (cleared keys : List String) (j : String) (m : Assoc AttemptState)
      → AreOnce keys
      → in_flight_of j (complete_keys config kind cleared now keys m)
        ≡ in_flight_of j m - (if contains j keys then 1 else 0)
  unfolding complete_keys contains
  complete_keys-in_flight kind cleared [] j m o = omega arith
  complete_keys-in_flight kind cleared (key ∷ keys) j m o = ground (
    arith,
    complete_keys-in_flight kind cleared keys j (complete_key config kind cleared now key m) o.1,
    complete_key-in_flight kind cleared key j m,
    eq_iff key j,
  )

  pub reset_key-in_flight :
      (key j : String) (m : Assoc AttemptState)
      → in_flight_of j (reset_key config now key m) ≡ in_flight_of j m
  unfolding reset_key clear_failures
  reset_key-in_flight key j m = elim (Option-cases (lookup key m)) [
    | inl e ↦ rw (e, reset_key)
    | inr (s, e) ↦
        rw (e, reset_key)
          (ground (
            arith,
            in_flight_of-store_or_delete key j (clear_failures (prune config s now)) m,
            in_flight-prune config s now,
            in_flight_of-some key s m e,
            eq_iff key j,
          ))
  ]

  pub reset_keys-in_flight :
      (keys : List String) (j : String) (m : Assoc AttemptState)
      → in_flight_of j (reset_keys config now keys m) ≡ in_flight_of j m
  unfolding reset_keys
  reset_keys-in_flight [] j m = refl
  reset_keys-in_flight (key ∷ keys) j m =
      reset_keys-in_flight keys j (reset_key config now key m) ∙ reset_key-in_flight key j m
