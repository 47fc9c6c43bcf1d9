-- ===== src/Limiter/Sound/Evict.antt =====
-- What deleting the candidates changes, and the answer of `make_room`.
use gu_gu_manager.Base.{
  ℕ, ◌+◌, ◌-◌, ◌≤◌, ◌≡◌, refl, ◌∙◌, inl, inr, String, Bool, true, false, List, [], ◌∷◌, arith,
  length, take, length-take, All, Bool-cases, str_eq, eq_iff, contains, leb, ltb, leb→le,
}
use gu_gu_manager.Base.Maps.{
  Assoc, lookup, remove, IsDistinct, lookup-remove, length-remove, remove-IsDistinct,
}
use gu_gu_manager.Limiter.State.{AttemptLimit, AttemptState}
use gu_gu_manager.Limiter.Reserve.{
  Candidate, missing, candidates, sort_candidates, delete_candidates, make_room,
}
use gu_gu_manager.Limiter.Sound.Entries.{IsSound, remove-IsSound}
use gu_gu_manager.Limiter.Sound.Room.{
  in_flight_of, IsEvictable, AreDistinct, candidates-IsEvictable, candidates-AreDistinct,
  sort_candidates-All, sort_candidates-AreDistinct, take-All, take-AreDistinct,
  length-sort_candidates, missing-remove, in_flight_of-remove,
}

-- The candidates to delete: distinct keys of entries that may go.
record AreEvictable (requested : List String) (m : Assoc AttemptState) (cs : List Candidate)
    : Type 0 where
  each : All (IsEvictable requested m) cs
  distinct : AreDistinct cs

module _ (requested : List String) where
  IsEvictable-after :
      (c d : Candidate) (m : Assoc AttemptState)
      → str_eq c.key d.key ≡ false
      → IsEvictable requested m d
      → IsEvictable requested (remove c.key m) d
  unfolding in_flight_of
  IsEvictable-after c d m h e =
      ground (arith, lookup-remove c.key d.key m, e.present, e.unrequested, e.resting)

  all-IsEvictable_after :
      (c : Candidate) (m : Assoc AttemptState) (cs : List Candidate)
      → All (λ d. str_eq c.key d.key ≡ false) cs
      → All (IsEvictable requested m) cs
      → All (IsEvictable requested (remove c.key m)) cs
  all-IsEvictable_after c m [] f e = tt
  all-IsEvictable_after c m (d ∷ ds) f e =
      (IsEvictable-after c d m f.0 e.0, all-IsEvictable_after c m ds f.1 e.1)

  evictable_tail :
      (c : Candidate) (cs : List Candidate) (m : Assoc AttemptState)
      → AreEvictable requested m (c ∷ cs)
      → AreEvictable requested (remove c.key m) cs
  evictable_tail c cs m v = record {
    each = all-IsEvictable_after c m cs v.distinct.0 v.each.1;
    distinct = v.distinct.1;
  }

  length-delete_candidates :
      (cs : List Candidate) (m : Assoc AttemptState)
      → AreEvictable requested m cs
      → IsDistinct m
      → length (delete_candidates cs m) + length cs ≡ length m
  unfolding delete_candidates
  length-delete_candidates [] m v d = omega arith
  length-delete_candidates (c ∷ cs) m v d = ground (
    arith,
    length-delete_candidates cs (remove c.key m) (evictable_tail c cs m v)
        (remove-IsDistinct c.key m d),
    length-remove c.key m d,
    v.each.0.present,
  )

  missing-delete_candidates :
      (cs : List Candidate) (m : Assoc AttemptState)
      → AreEvictable requested m cs
      → missing requested (delete_candidates cs m) ≡ missing requested m
  unfolding delete_candidates
  missing-delete_candidates [] m v = refl
  missing-delete_candidates (c ∷ cs) m v =
      missing-delete_candidates cs (remove c.key m) (evictable_tail c cs m v)
      ∙ missing-remove requested c.key m requested v.each.0.unrequested

  in_flight_of-delete_candidates :
      (j : String) (cs : List Candidate) (m : Assoc AttemptState)
      → AreEvictable requested m cs
      → in_flight_of j (delete_candidates cs m) ≡ in_flight_of j m
  unfolding delete_candidates
  in_flight_of-delete_candidates j [] m v = refl
  in_flight_of-delete_candidates j (c ∷ cs) m v =
      in_flight_of-delete_candidates j cs (remove c.key m) (evictable_tail c cs m v)
      ∙ in_flight_of-remove requested c.key j m v.each.0.resting

  requested-delete_candidates :
      (j : String) (cs : List Candidate) (m : Assoc AttemptState)
      → contains j requested ≡ true
      → AreEvictable requested m cs
      → lookup j (delete_candidates cs m) ≡ lookup j m
  unfolding delete_candidates
  requested-delete_candidates j [] m r v = refl
  requested-delete_candidates j (c ∷ cs) m r v =
      requested-delete_candidates j cs (remove c.key m) r (evictable_tail c cs m v)
      ∙ ground (arith, lookup-remove c.key j m, eq_iff c.key j, v.each.0.unrequested)

delete_candidates-IsSound :
    (config : AttemptLimit) (n : ℕ) (cs : List Candidate) (m : Assoc AttemptState)
    → IsSound config n m
    → IsSound config n (delete_candidates cs m)
unfolding delete_candidates
delete_candidates-IsSound config n [] m v = v
delete_candidates-IsSound config n (c ∷ cs) m v =
    delete_candidates-IsSound config n cs (remove c.key m) (remove-IsSound config n c.key m v)

-- What holds of the answer: no attempt in flight is lost, the requested entries stay, and there is
-- room for the requested keys if the answer is yes.
pub record HasRoom (config : AttemptLimit) (n : ℕ) (requested : List String)
    (m : Assoc AttemptState) (r : Assoc AttemptState × Bool) : Type 0 where
  pub sound : IsSound config n r.0
  pub ledger : (j : String) → in_flight_of j r.0 ≡ in_flight_of j m
  pub requested_stay : (j : String) → contains j requested ≡ true → lookup j r.0 ≡ lookup j m
  pub room : r.1 ≡ true → length r.0 + missing requested r.0 ≤ config.capacity

module _ (config : AttemptLimit) (n : ℕ) (requested : List String) (m : Assoc AttemptState) where
  unchanged :
      (b : Bool)
      → (b ≡ true → length m + missing requested m ≤ config.capacity)
      → IsSound config n m
      → HasRoom config n requested m (m, b)
  unchanged b room v = record {
    sound = v;
    ledger = λ j. refl;
    requested_stay = λ j _. refl;
    room = room;
  }

  chosen_AreEvictable :
      (k : ℕ)
      → IsDistinct m
      → AreEvictable requested m (take k (sort_candidates (candidates requested m)))
  chosen_AreEvictable k d = record {
    each = take-All _ k _ (sort_candidates-All _ _ (candidates-IsEvictable requested m d));
    distinct =
        take-AreDistinct k _ (sort_candidates-AreDistinct _ (candidates-AreDistinct requested m d));
  }

  evicted :
      (k : ℕ)
      → k ≤ length (candidates requested m)
      → length m + missing requested m ≤ config.capacity + k
      → IsSound config n m
      → HasRoom config n requested m
          (delete_candidates (take k (sort_candidates (candidates requested m))) m, true)
  evicted k few enough v =
      let chosen = chosen_AreEvictable k v.distinct in
      let cs = take k (sort_candidates (candidates requested m)) in
      record {
        sound = delete_candidates-IsSound config n cs m v;
        ledger = λ j. in_flight_of-delete_candidates requested j cs m chosen;
        requested_stay = λ j r. requested-delete_candidates requested j cs m r chosen;
        room = λ _. omega (
          arith,
          length-delete_candidates requested cs m chosen v.distinct,
          missing-delete_candidates requested cs m chosen,
          length-take k (sort_candidates (candidates requested m)),
          length-sort_candidates (candidates requested m),
        );
      }

  pub make_room-HasRoom :
      IsSound config n m → HasRoom config n requested m (make_room config requested m)
  unfolding make_room
  make_room-HasRoom v = elim (Bool-cases (leb (length m + missing requested m) config.capacity)) [
    | inl fits ↦ rw (fits, make_room) (unchanged true (λ _. leb→le _ _ fits) v)
    | inr full ↦
        elim (Bool-cases (
          ltb (length (candidates requested m))
            (length m + missing requested m - config.capacity))) [
              | inl short ↦ rw (full, short, make_room) (unchanged false (λ e. cc) v)
              | inr long ↦ rw (full, long, make_room) (evicted _ (ground arith) (omega arith) v)
            ]
  ]
