-- ===== src/Base/Maps.antt =====
-- Go maps with text keys as association lists. The order of the list stands for the order in
-- which `range` visits the map, which Go leaves open: what is proved holds for every list.
use gu_gu_manager.Base.{
  Bool, true, false, inl, inr, Bool-cases, ◌+◌, ◌≡◌, refl, String, Option, none, some, List, [],
  ◌∷◌, arith, str_eq, if◌then◌else◌, is_some, eq_iff, length,
}

abbrev pub Assoc {ℓ} : Type ℓ → Type ℓ
Assoc V = List (String × V)

module _ {ℓ} {V : Type ℓ} where
  unfoldable pub lookup : String → Assoc V → Option V
  lookup k [] = none
  lookup k ((j, v) ∷ m) = if str_eq j k then some v else lookup k m

  unfoldable pub insert : String → V → Assoc V → Assoc V
  insert k v [] = (k, v) ∷ []
  insert k v ((j, w) ∷ m) = if str_eq j k then (j, v) ∷ m else (j, w) ∷ insert k v m

  -- The loop that deletes each entry whose value passes the test.
  unfoldable pub drop_values : (V → Bool) → Assoc V → Assoc V
  drop_values test [] = []
  drop_values test ((j, w) ∷ m) =
      let rest = drop_values test m in if test w then rest else (j, w) ∷ rest

  unfoldable pub remove : String → Assoc V → Assoc V
  remove k [] = []
  remove k ((j, w) ∷ m) = let rest = remove k m in if str_eq j k then rest else (j, w) ∷ rest

  pub lookup-insert :
      (key other : String) (new : V) (m : Assoc V)
      → lookup other (insert key new m) ≡ (if str_eq key other then some new else lookup other m)
  unfolding insert lookup
  lookup-insert key other new [] = refl
  lookup-insert key other new ((first, w) ∷ m) =
      ground (
        arith,
        lookup-insert key other new m,
        eq_iff first key,
        eq_iff first other,
        eq_iff key other,
      )

  pub lookup-insert_same : (k : String) (v : V) (m : Assoc V) → lookup k (insert k v m) ≡ some v
  lookup-insert_same k v m = ground (arith, lookup-insert k k v m, eq_iff k k)

  pub lookup-remove :
      (k j : String) (m : Assoc V)
      → lookup j (remove k m) ≡ (if str_eq k j then none else lookup j m)
  unfolding lookup remove
  lookup-remove k j [] = ground arith
  lookup-remove k j ((i, w) ∷ m) =
      ground (arith, lookup-remove k j m, eq_iff i k, eq_iff i j, eq_iff k j)

  -- No key stands twice.
  abbrev pub IsDistinct : Assoc V → Type ℓ
  IsDistinct [] = Unit
  IsDistinct ((k, v) ∷ m) = (lookup k m ≡ none) × IsDistinct m

  pub insert-IsDistinct :
      (k : String) (v : V) (m : Assoc V) → IsDistinct m → IsDistinct (insert k v m)
  unfolding lookup insert
  insert-IsDistinct k v [] d = (refl, tt)
  insert-IsDistinct k v ((i, w) ∷ m) d =
      ground (arith, insert-IsDistinct k v m d.1, lookup-insert k i v m, eq_iff i k, eq_iff k i)

  pub remove-IsDistinct : (k : String) (m : Assoc V) → IsDistinct m → IsDistinct (remove k m)
  unfolding remove
  remove-IsDistinct k [] d = tt
  remove-IsDistinct k ((i, w) ∷ m) d =
      ground (arith, remove-IsDistinct k m d.1, lookup-remove k i m)

  pub length-insert :
      (k : String) (v : V) (m : Assoc V)
      → length (insert k v m) ≡ (if is_some (lookup k m) then length m else length m + 1)
  unfolding lookup insert
  length-insert k v [] = omega arith
  length-insert k v ((i, w) ∷ m) = ground (arith, length-insert k v m)

  pub remove-absent : (k : String) (m : Assoc V) → lookup k m ≡ none → remove k m ≡ m
  unfolding lookup remove
  remove-absent k [] h = refl
  remove-absent k ((i, w) ∷ m) h = ground (arith, remove-absent k m)

  pub length-remove :
      (k : String) (m : Assoc V)
      → IsDistinct m
      → (if is_some (lookup k m) then length (remove k m) + 1 else length (remove k m)) ≡ length m
  unfolding lookup remove
  length-remove k [] d = refl
  length-remove k ((i, w) ∷ m) d =
      ground (arith, length-remove k m d.1, remove-absent k m, eq_iff i k)

module _ {ℓ} {V : Type ℓ} (test : V → Bool) (k : String) where
  drop_values-absent : (m : Assoc V) → lookup k m ≡ none → lookup k (drop_values test m) ≡ none
  unfolding lookup drop_values
  drop_values-absent [] h = refl
  drop_values-absent ((i, w) ∷ m) h = ground (arith, drop_values-absent m)

  pub drop_values-gone :
      (m : Assoc V) (v : V)
      → IsDistinct m
      → lookup k m ≡ some v
      → test v ≡ true
      → lookup k (drop_values test m) ≡ none
  unfolding lookup drop_values
  drop_values-gone [] v d h t = absurd (ground arith)
  drop_values-gone ((i, w) ∷ m) v d h t =
      ground (arith, drop_values-gone m v d.1, drop_values-absent m, eq_iff i k)

-- A predicate on every value.
module _ {ℓ κ} {V : Type ℓ} where
  abbrev pub AllValues : (V → Type κ) → Assoc V → Type κ
  AllValues P [] = Unit
  AllValues P ((k, v) ∷ m) = P v × AllValues P m

  pub insert-AllValues :
      (P : V → Type κ) (k : String) (v : V) (m : Assoc V)
      → P v
      → AllValues P m
      → AllValues P (insert k v m)
  unfolding insert
  insert-AllValues P k v [] p h = (p, tt)
  insert-AllValues P k v ((i, w) ∷ m) p h = ground (arith, insert-AllValues P k v m p h.1)

  pub remove-AllValues :
      (P : V → Type κ) (k : String) (m : Assoc V) → AllValues P m → AllValues P (remove k m)
  unfolding remove
  remove-AllValues P k [] h = tt
  remove-AllValues P k ((i, w) ∷ m) h = ground (arith, remove-AllValues P k m h.1)

  pub lookup-AllValues :
      (P : V → Type κ) (k : String) (v : V) (m : Assoc V)
      → AllValues P m
      → lookup k m ≡ some v
      → P v
  unfolding lookup
  lookup-AllValues P k v [] h e = absurd (ground arith)
  lookup-AllValues P k v ((i, w) ∷ m) h e = ground (arith, lookup-AllValues P k v m h.1)

  pub AllValues-map :
      (P : V → Type κ) (Q : V → Type κ) (m : Assoc V)
      → ((v : V) → P v → Q v)
      → AllValues P m
      → AllValues Q m
  AllValues-map P Q [] f h = tt
  AllValues-map P Q ((k, v) ∷ m) f h = (f v h.0, AllValues-map P Q m f h.1)

  -- What stays passes the test not.
  pub drop_values-AllValues :
      (P : V → Type κ) (Q : V → Type κ) (test : V → Bool) (m : Assoc V)
      → ((v : V) → P v → test v ≡ false → Q v)
      → AllValues P m
      → AllValues Q (drop_values test m)
  unfolding drop_values
  drop_values-AllValues P Q test [] f h = tt
  drop_values-AllValues P Q test ((k, v) ∷ m) f h =
      let rest = drop_values-AllValues P Q test m f h.1 in
      elim (Bool-cases (test v)) [
        | inl gone ↦ rw gone rest
        | inr stays ↦ rw stays (f v h.0 stays, rest)
      ]
