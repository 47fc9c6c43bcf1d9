-- ===== src/Limiter/Sound/Room.antt =====
-- `ensureCapacity`: what it evicts, and how much room there is afterwards.
use gu_gu_manager.Base.{
  ℕ, zero, suc, ◌+◌, ◌≡◌, refl, String, true, false, none, some, List, [], ◌∷◌, arith, length, take,
  All, All-map, is_some, str_eq, eq_iff, contains,
}
use gu_gu_manager.Base.Maps.{Assoc, lookup, remove, IsDistinct, lookup-remove}
use gu_gu_manager.Limiter.State.{AttemptState}
use gu_gu_manager.Limiter.Reserve.{
  Candidate, missing, candidate_at, candidates, insert_candidate, sort_candidates,
}

-- The attempts in flight for a key; a key with no entry has none.
unfoldable pub in_flight_of : String → Assoc AttemptState → ℕ
in_flight_of key m = elim (lookup key m) [ none ↦ 0 | some s ↦ s.in_flight ]

pub record IsEvictable (requested : List String) (m : Assoc AttemptState) (c : Candidate)
    : Type 0 where
  pub present : is_some (lookup c.key m) ≡ true
  pub unrequested : contains c.key requested ≡ false
  pub resting : in_flight_of c.key m ≡ 0

abbrev IsFresh : Candidate → List Candidate → Type 0
IsFresh c = All (λ d. str_eq c.key d.key ≡ false)

abbrev pub AreDistinct : List Candidate → Type 0
AreDistinct [] = Unit {0}
AreDistinct (c ∷ cs) = IsFresh c cs × AreDistinct cs

module _ (requested : List String) where
  IsEvictable-beside :
      (k : String) (s : AttemptState) (m : Assoc AttemptState)
      → lookup k m ≡ none
      → (c : Candidate) → IsEvictable requested m c
      → IsEvictable requested ((k, s) ∷ m) c
  unfolding lookup in_flight_of
  IsEvictable-beside k s m fresh c e =
      ground (arith, eq_iff k c.key, e.present, e.unrequested, e.resting)

  pub candidates-IsEvictable :
      (m : Assoc AttemptState)
      → IsDistinct m
      → All (IsEvictable requested m) (candidates requested m)
  unfolding candidates lookup in_flight_of
  candidates-IsEvictable [] d = tt
  candidates-IsEvictable ((k, s) ∷ m) d =
      let rest =
        All-map (IsEvictable requested m) (IsEvictable requested ((k, s) ∷ m))
          (candidates requested m) (IsEvictable-beside k s m d.0) (candidates-IsEvictable m d.1) in
      ground (arith, rest, eq_iff k k)

  candidates-IsFresh :
      (c : Candidate) (m : Assoc AttemptState)
      → lookup c.key m ≡ none
      → IsFresh c (candidates requested m)
  unfolding candidates lookup
  candidates-IsFresh c [] h = tt
  candidates-IsFresh c ((k, s) ∷ m) h =
      ground (arith, candidates-IsFresh c m, eq_iff k c.key, eq_iff c.key k)

  pub candidates-AreDistinct :
      (m : Assoc AttemptState) → IsDistinct m → AreDistinct (candidates requested m)
  unfolding candidates
  candidates-AreDistinct [] d = tt
  candidates-AreDistinct ((k, s) ∷ m) d = ground (
    arith,
    candidates-AreDistinct m d.1,
    candidates-IsFresh (record { key = k; at = candidate_at s }) m d.0,
  )

module _ {ℓ} (P : Candidate → Type ℓ) where
  insert_candidate-All :
      (c : Candidate) (cs : List Candidate) → P c → All P cs → All P (insert_candidate c cs)
  unfolding insert_candidate
  insert_candidate-All c [] p h = (p, tt)
  insert_candidate-All c (d ∷ ds) p h = ground (arith, insert_candidate-All c ds p h.1)

  pub sort_candidates-All : (cs : List Candidate) → All P cs → All P (sort_candidates cs)
  unfolding sort_candidates
  sort_candidates-All [] h = tt
  sort_candidates-All (c ∷ cs) h =
      insert_candidate-All c (sort_candidates cs) h.0 (sort_candidates-All cs h.1)

  pub take-All : (n : ℕ) (cs : List Candidate) → All P cs → All P (take n cs)
  take-All zero cs h = tt
  take-All (suc n) [] h = tt
  take-All (suc n) (c ∷ cs) h = (h.0, take-All n cs h.1)

str_eq_sym : (s t : String) → str_eq s t ≡ false → str_eq t s ≡ false
str_eq_sym s t h = ground (arith, eq_iff s t, eq_iff t s)

insert_candidate-AreDistinct :
    (c : Candidate) (cs : List Candidate)
    → IsFresh c cs
    → AreDistinct cs
    → AreDistinct (insert_candidate c cs)
unfolding insert_candidate
insert_candidate-AreDistinct c [] f d = (tt, tt)
insert_candidate-AreDistinct c (x ∷ xs) f d = ground (
  arith,
  insert_candidate-AreDistinct c xs f.1 d.1,
  insert_candidate-All (λ y. str_eq x.key y.key ≡ false) c xs (str_eq_sym c.key x.key f.0) d.0,
)

pub sort_candidates-AreDistinct :
    (cs : List Candidate) → AreDistinct cs → AreDistinct (sort_candidates cs)
unfolding sort_candidates
sort_candidates-AreDistinct [] d = tt
sort_candidates-AreDistinct (c ∷ cs) d =
    insert_candidate-AreDistinct c (sort_candidates cs) (sort_candidates-All _ cs d.0)
      (sort_candidates-AreDistinct cs d.1)

pub take-AreDistinct : (n : ℕ) (cs : List Candidate) → AreDistinct cs → AreDistinct (take n cs)
take-AreDistinct zero cs d = tt
take-AreDistinct (suc n) [] d = tt
take-AreDistinct (suc n) (c ∷ cs) d = (take-All _ n cs d.0, take-AreDistinct n cs d.1)

length-insert_candidate :
    (c : Candidate) (cs : List Candidate) → length (insert_candidate c cs) ≡ length cs + 1
unfolding insert_candidate
length-insert_candidate c [] = omega arith
length-insert_candidate c (d ∷ ds) = ground (arith, length-insert_candidate c ds)

pub length-sort_candidates : (cs : List Candidate) → length (sort_candidates cs) ≡ length cs
unfolding sort_candidates
length-sort_candidates [] = refl
length-sort_candidates (c ∷ cs) =
    omega (arith, length-insert_candidate c (sort_candidates cs), length-sort_candidates cs)

module _ (requested : List String) where
  pub missing-remove :
      (key : String) (m : Assoc AttemptState) (keys : List String)
      → contains key keys ≡ false
      → missing keys (remove key m) ≡ missing keys m
  unfolding missing contains
  missing-remove key m [] h = refl
  missing-remove key m (k ∷ ks) h =
      ground (arith, missing-remove key m ks, lookup-remove key k m, eq_iff k key, eq_iff key k)

  pub in_flight_of-remove :
      (key j : String) (m : Assoc AttemptState)
      → in_flight_of key m ≡ 0
      → in_flight_of j (remove key m) ≡ in_flight_of j m
  unfolding in_flight_of
  in_flight_of-remove key j m h = ground (arith, lookup-remove key j m, eq_iff key j)
