-- ===== src/Limiter/Sound/Admit.antt =====
-- The last loop of `Reserve`, and the normalized keys.
use gu_gu_manager.Base.{
  ℕ, ◌+◌, ◌≤◌, ◌<◌, ◌≡◌, refl, ◌∙◌, inl, inr, String, true, false, List, [], ◌∷◌, ◌++◌, arith,
  Option-cases, str_eq, eq_iff, contains, if◌then◌else◌, length, is_some, trim_space,
}
use gu_gu_manager.Base.Maps.{
  Assoc, lookup, AllValues, IsDistinct, lookup-insert, length-insert, insert-AllValues,
  insert-IsDistinct, lookup-AllValues,
}
use gu_gu_manager.Limiter.State.{AttemptLimit, AttemptState, is_idle}
use gu_gu_manager.Limiter.Keys.{add_key, collect_keys, normalized_limit_keys}
use gu_gu_manager.Limiter.Reserve.{admitted, admit_key, admit_keys, missing}
use gu_gu_manager.Limiter.Sound.States.{IsGood, retry_after_zero}
use gu_gu_manager.Limiter.Sound.Entries.{IsSound}
use gu_gu_manager.Limiter.Sound.Room.{in_flight_of}
use gu_gu_manager.Limiter.Sound.Waits.{wait_of}

-- No key stands twice.
abbrev pub AreOnce : List String → Type 0
AreOnce [] = Unit {0}
AreOnce (k ∷ ks) = (contains k ks ≡ false) × AreOnce ks

pub contains-append :
    (k : String) (xs ys : List String)
    → contains k (xs ++ ys) ≡ (if contains k xs then true else contains k ys)
unfolding contains
contains-append k [] ys = refl
contains-append k (x ∷ xs) ys = ground (arith, contains-append k xs ys)

snoc-AreOnce :
    (x : String) (xs : List String) → AreOnce xs → contains x xs ≡ false → AreOnce (xs ++ x ∷ [])
unfolding contains
snoc-AreOnce x [] o h = (refl, tt)
snoc-AreOnce x (y ∷ ys) o h =
    ground (arith, snoc-AreOnce x ys o.1, contains-append y ys (x ∷ []), eq_iff x y, eq_iff y x)

add_key-AreOnce :
    (result : List String) (key : String) → AreOnce result → AreOnce (add_key result key)
unfolding add_key
add_key-AreOnce result key o = ground (arith, snoc-AreOnce key result o)

collect_keys-AreOnce :
    (result keys : List String) → AreOnce result → AreOnce (collect_keys result keys)
unfolding collect_keys
collect_keys-AreOnce result [] o = o
collect_keys-AreOnce result (key ∷ keys) o =
    collect_keys-AreOnce (add_key result (trim_space key)) keys
      (add_key-AreOnce result (trim_space key) o)

pub normalized_limit_keys-AreOnce : (keys : List String) → AreOnce (normalized_limit_keys keys)
unfolding normalized_limit_keys
normalized_limit_keys-AreOnce keys = collect_keys-AreOnce [] keys tt

module _ (config : AttemptLimit) (now : ℕ) where
  admit_key-wait :
      (key j : String) (m : Assoc AttemptState)
      → str_eq key j ≡ false
      → wait_of config now j (admit_key now key m) ≡ wait_of config now j m
  unfolding admit_key wait_of
  admit_key-wait key j m h = ground (arith, lookup-insert key j (admitted now (lookup key m)) m)

  admit_key-AllValues :
      (key : String) (m : Assoc AttemptState)
      → 0 < config.maximum
      → wait_of config now key m ≡ 0
      → AllValues (IsGood config) m
      → AllValues (IsGood config) (admit_key now key m)
  unfolding admit_key wait_of
  admit_key-AllValues key m pos w h = elim (Option-cases (lookup key m)) [
    | inl e ↦
        rw (e, admit_key, admitted)
          (insert-AllValues (IsGood config) key _ m
            (unfold is_idle in record { bounded = omega arith; exclusive = inl refl; live = refl })
            h)
    | inr (s, e) ↦
        rw (e, admit_key, admitted)
          (insert-AllValues (IsGood config) key _ m
            (admitted_IsGood s (retry_after_zero config s now (ground arith))
              (lookup-AllValues (IsGood config) key s m h e))
            h)
  ]
    where
      admitted_IsGood :
          (s : AttemptState)
          → (s.blocked_until ≤ now) × (length s.failures + s.in_flight < config.maximum)
          → IsGood config s
          → IsGood config (record s { in_flight = s.in_flight + 1; last_activity = now })
      admitted_IsGood s free g = record {
        bounded = omega arith;
        exclusive = g.exclusive;
        live = unfold is_idle in ground arith;
      }

  length-admit_key :
      (key : String) (m : Assoc AttemptState)
      → length (admit_key now key m) ≡ length m + (if is_some (lookup key m) then 0 else 1)
  unfolding admit_key
  length-admit_key key m = ground (arith, length-insert key (admitted now (lookup key m)) m)

  missing-admit_key :
      (keys : List String) (key : String) (m : Assoc AttemptState)
      → missing keys (admit_key now key m) ≤ missing keys m
  unfolding missing admit_key
  missing-admit_key [] key m = omega arith
  missing-admit_key (k ∷ ks) key m =
      ground
        (arith, missing-admit_key ks key m, lookup-insert key k (admitted now (lookup key m)) m)

  pub admit_keys-IsSound :
      (keys : List String) (m : Assoc AttemptState)
      → 0 < config.maximum
      → AreOnce keys
      → ((j : String) → contains j keys ≡ true → wait_of config now j m ≡ 0)
      → length m + missing keys m ≤ config.capacity
      → AllValues (IsGood config) m
      → IsDistinct m
      → IsSound config config.capacity (admit_keys now keys m)
  unfolding admit_keys contains missing
  admit_keys-IsSound [] m pos o w room h d = record {
    states = h;
    distinct = d;
    sized = omega arith;
  }
  admit_keys-IsSound (key ∷ keys) m pos o w room h d =
      admit_keys-IsSound keys (admit_key now key m) pos o.1
        (λ j c. admit_key-wait key j m (ground (arith, eq_iff key j)) ∙ w j (ground arith))
        (omega (arith, length-admit_key key m, missing-admit_key keys key m))
        (admit_key-AllValues key m pos (w key (ground (arith, eq_iff key key))) h)
        (unfold admit_key in insert-IsDistinct key (admitted now (lookup key m)) m d)

module _ (now : ℕ) where
  admit_key-in_flight :
      (key j : String) (m : Assoc AttemptState)
      → in_flight_of j (admit_key now key m) ≡ in_flight_of j m + (if str_eq key j then 1 else 0)
  unfolding admit_key in_flight_of
  admit_key-in_flight key j m =
      ground (arith, lookup-insert key j (admitted now (lookup key m)) m, eq_iff key j)

  -- Each requested key has one more attempt in flight, every other key as many as before.
  pub admit_keys-in_flight :
      (keys : List String) (j : String) (m : Assoc AttemptState)
      → AreOnce keys
      → in_flight_of j (admit_keys now keys m)
        ≡ in_flight_of j m + (if contains j keys then 1 else 0)
  unfolding admit_keys contains
  admit_keys-in_flight [] j m o = omega arith
  admit_keys-in_flight (key ∷ keys) j m o = ground (
    arith,
    admit_keys-in_flight keys j (admit_key now key m) o.1,
    admit_key-in_flight key j m,
    eq_iff key j,
  )
