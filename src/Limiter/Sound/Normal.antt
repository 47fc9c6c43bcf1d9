-- ===== src/Limiter/Sound/Normal.antt =====
-- Normalizing keys that are normalized changes nothing.
use Prim.Native.Char.{code}
use gu_gu_manager.Base.{
  ◌≡◌, refl, ap, ◌∙◌, String, Bool, true, false, List, [], ◌∷◌, ◌++◌, arith, eq_iff, if◌then◌else◌,
  All, All-append, is_space, is_empty, trim_left, trim_right, trim_space, contains,
}
use mathlib.Core.List.{append_assoc, append-nil}
use gu_gu_manager.Limiter.Keys.{add_key, collect_keys, normalized_limit_keys}
use gu_gu_manager.Limiter.Sound.Admit.{AreOnce, normalized_limit_keys-AreOnce, contains-append}

abbrev starts_plain : String → Bool
starts_plain String.[] = true
starts_plain (String.◌∷◌ c s) = if is_space (code c) then false else true

trim_left-plain : (s : String) → starts_plain (trim_left s) ≡ true
unfolding trim_left
trim_left-plain String.[] = refl
trim_left-plain (String.◌∷◌ c s) = ground (arith, trim_left-plain s)

trim_right-plain : (s : String) → starts_plain s ≡ true → starts_plain (trim_right s) ≡ true
unfolding trim_right
trim_right-plain String.[] h = refl
trim_right-plain (String.◌∷◌ c s) h = ground arith

trim_left_of_plain : (s : String) → starts_plain s ≡ true → trim_left s ≡ s
unfolding trim_left
trim_left_of_plain String.[] h = refl
trim_left_of_plain (String.◌∷◌ c s) h = ground arith

trim_right_idem : (s : String) → trim_right (trim_right s) ≡ trim_right s
unfolding trim_right
trim_right_idem String.[] = refl
trim_right_idem (String.◌∷◌ c s) = ground (arith, trim_right_idem s)

trim_space_idem : (s : String) → trim_space (trim_space s) ≡ trim_space s
unfolding trim_space
trim_space_idem s =
    ap trim_right (
      trim_left_of_plain (trim_right (trim_left s))
        (trim_right-plain (trim_left s) (trim_left-plain s)))
    ∙ trim_right_idem (trim_left s)

abbrev IsNormal : String → Type 0
IsNormal k = (trim_space k ≡ k) × (is_empty k ≡ false)

add_key-IsNormal :
    (result : List String) (key : String)
    → All IsNormal result
    → All IsNormal (add_key result (trim_space key))
unfolding add_key
add_key-IsNormal result key h =
    ground (arith, trim_space_idem key, All-append IsNormal result (trim_space key ∷ []) h)

collect_keys-IsNormal :
    (result keys : List String) → All IsNormal result → All IsNormal (collect_keys result keys)
unfolding collect_keys
collect_keys-IsNormal result [] h = h
collect_keys-IsNormal result (key ∷ keys) h =
    collect_keys-IsNormal (add_key result (trim_space key)) keys (add_key-IsNormal result key h)

-- Keys that are normal, and distinct from each other and from the result, are all added.
collect_keys-normal :
    (result keys : List String)
    → All IsNormal keys
    → All (λ k. contains k result ≡ false) keys
    → AreOnce keys
    → collect_keys result keys ≡ result ++ keys
unfolding collect_keys
collect_keys-normal result [] n f o = rw append-nil
collect_keys-normal result (key ∷ keys) n f o =
    rw (n.0.0, added)
      (collect_keys-normal (result ++ key ∷ []) keys n.1 (still_new keys f.1 o.0) o.1
        ∙ append_assoc result (key ∷ []) keys)
  where
    added : add_key result key ≡ result ++ key ∷ []
    added = unfold add_key in ground arith

    still_new :
        (ks : List String)
        → All (λ k. contains k result ≡ false) ks
        → contains key ks ≡ false
        → All (λ k. contains k (result ++ key ∷ []) ≡ false) ks
    still_new [] g c = tt
    still_new (k ∷ ks) g c =
        unfold contains in
        (
          ground (arith, contains-append k result (key ∷ []), eq_iff key k, eq_iff k key),
          still_new ks g.1 (ground arith),
        )

none_in_nil : (keys : List String) → All (λ k. contains k [] ≡ false) keys
unfolding contains
none_in_nil [] = tt
none_in_nil (k ∷ ks) = (refl, none_in_nil ks)

-- Normalizing keys that are normalized changes nothing.
pub normalized_limit_keys_idem :
    (keys : List String)
    → normalized_limit_keys (normalized_limit_keys keys) ≡ normalized_limit_keys keys
unfolding normalized_limit_keys
normalized_limit_keys_idem keys =
    collect_keys-normal [] (collect_keys [] keys) (collect_keys-IsNormal [] keys tt)
      (none_in_nil (collect_keys [] keys)) (normalized_limit_keys-AreOnce keys)
