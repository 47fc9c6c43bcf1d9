-- ===== src/Agent/Eviction.antt =====
-- `evictLocked` keeps at most the limit of records, each under its own key.
use gu_gu_manager.Base.{
  ℕ, zero, suc, ◌+◌, ◌-◌, ◌≤◌, ◌≡◌, refl, inl, inr, ◌⊎◌, String, true, false, Option, none, some,
  List, [], ◌∷◌, arith, length, take, length-take, All, Bool-cases, is_some, str_eq, eq_iff, leb,
}
use gu_gu_manager.Base.Maps.{
  lookup, remove, IsDistinct, lookup-remove, length-remove, remove-IsDistinct,
}
use gu_gu_manager.Agent.Journal.{
  JournalEntry, Bucket, Dated, dated, insert_dated, sort_dated, delete_dated, evict,
  journal_max_entries,
}

IsFresh : String → List Dated → Type 0
IsFresh k ds = All (λ d. str_eq k d.key ≡ false) ds

AreDistinct : List Dated → Type 0
unfolding IsFresh
AreDistinct [] = Unit {0}
AreDistinct (d ∷ ds) = IsFresh d.key ds × AreDistinct ds

-- A record that a list to delete names.
IsThere : Bucket → Dated → Type 0
IsThere b d = is_some (lookup d.key b) ≡ true

module _ {ℓ} (P : Dated → Type ℓ) where
  insert_dated-All : (d : Dated) (ds : List Dated) → P d → All P ds → All P (insert_dated d ds)
  unfolding insert_dated
  insert_dated-All d [] p h = (p, tt)
  insert_dated-All d (e ∷ es) p h = ground (arith, insert_dated-All d es p h.1)

  sort_dated-All : (ds : List Dated) → All P ds → All P (sort_dated ds)
  unfolding sort_dated
  sort_dated-All [] h = tt
  sort_dated-All (d ∷ ds) h = insert_dated-All d (sort_dated ds) h.0 (sort_dated-All ds h.1)

  take-All : (n : ℕ) (ds : List Dated) → All P ds → All P (take n ds)
  take-All zero ds h = tt
  take-All (suc n) [] h = tt
  take-All (suc n) (d ∷ ds) h = (h.0, take-All n ds h.1)

insert_dated-AreDistinct :
    (d : Dated) (ds : List Dated)
    → IsFresh d.key ds
    → AreDistinct ds
    → AreDistinct (insert_dated d ds)
unfolding insert_dated AreDistinct
insert_dated-AreDistinct d [] f h = (tt, tt)
insert_dated-AreDistinct d (e ∷ es) f h = ground (
  arith,
  eq_iff d.key e.key,
  eq_iff e.key d.key,
  insert_dated-AreDistinct d es f.1 h.1,
  insert_dated-All (λ y. str_eq e.key y.key ≡ false) d es,
)

sort_dated-AreDistinct : (ds : List Dated) → AreDistinct ds → AreDistinct (sort_dated ds)
unfolding sort_dated AreDistinct
sort_dated-AreDistinct [] h = tt
sort_dated-AreDistinct (d ∷ ds) h =
    insert_dated-AreDistinct d (sort_dated ds) (sort_dated-All _ ds h.0)
      (sort_dated-AreDistinct ds h.1)

take-AreDistinct : (n : ℕ) (ds : List Dated) → AreDistinct ds → AreDistinct (take n ds)
unfolding AreDistinct
take-AreDistinct zero ds h = tt
take-AreDistinct (suc n) [] h = tt
take-AreDistinct (suc n) (d ∷ ds) h = (take-All _ n ds h.0, take-AreDistinct n ds h.1)

length-insert_dated : (d : Dated) (ds : List Dated) → length (insert_dated d ds) ≡ length ds + 1
unfolding insert_dated
length-insert_dated d [] = omega arith
length-insert_dated d (e ∷ es) = ground (arith, length-insert_dated d es)

length-sort_dated : (ds : List Dated) → length (sort_dated ds) ≡ length ds
unfolding sort_dated
length-sort_dated [] = refl
length-sort_dated (d ∷ ds) =
    omega (arith, length-insert_dated d (sort_dated ds), length-sort_dated ds)

length-dated : (b : Bucket) → length (dated b) ≡ length b
unfolding dated
length-dated [] = refl
length-dated ((k, none) ∷ b) = omega (arith, length-dated b)
length-dated ((k, some e) ∷ b) = omega (arith, length-dated b)

dated-IsFresh : (k : String) (b : Bucket) → lookup k b ≡ none → IsFresh k (dated b)
unfolding dated lookup IsFresh
dated-IsFresh k [] h = tt
dated-IsFresh k ((i, none) ∷ b) h = ground (arith, eq_iff i k, eq_iff k i, dated-IsFresh k b)
dated-IsFresh k ((i, some e) ∷ b) h = ground (arith, eq_iff i k, eq_iff k i, dated-IsFresh k b)

dated-AreDistinct : (b : Bucket) → IsDistinct b → AreDistinct (dated b)
unfolding dated AreDistinct
dated-AreDistinct [] h = tt
dated-AreDistinct ((k, none) ∷ b) h = (dated-IsFresh k b h.0, dated-AreDistinct b h.1)
dated-AreDistinct ((k, some e) ∷ b) h = (dated-IsFresh k b h.0, dated-AreDistinct b h.1)

IsThere-beside :
    (k : String) (v : Option JournalEntry) (b : Bucket) (ds : List Dated)
    → All (IsThere b) ds
    → All (IsThere ((k, v) ∷ b)) ds
unfolding IsThere lookup
IsThere-beside k v b [] h = tt
IsThere-beside k v b (d ∷ ds) h = (ground (arith, h.0), IsThere-beside k v b ds h.1)

dated-IsThere : (b : Bucket) → All (IsThere b) (dated b)
unfolding dated IsThere lookup
dated-IsThere [] = tt
dated-IsThere ((k, none) ∷ b) =
    (ground (arith, eq_iff k k), IsThere-beside k none b (dated b) (dated-IsThere b))
dated-IsThere ((k, some e) ∷ b) =
    (ground (arith, eq_iff k k), IsThere-beside k (some e) b (dated b) (dated-IsThere b))

IsThere-after :
    (k : String) (b : Bucket) (ds : List Dated)
    → IsFresh k ds
    → All (IsThere b) ds
    → All (IsThere (remove k b)) ds
unfolding IsThere IsFresh
IsThere-after k b [] f h = tt
IsThere-after k b (d ∷ ds) f h =
    (ground (arith, lookup-remove k d.key b, f.0, h.0), IsThere-after k b ds f.1 h.1)

length-delete_dated :
    (ds : List Dated) (b : Bucket)
    → AreDistinct ds
    → All (IsThere b) ds
    → IsDistinct b
    → length (delete_dated ds b) + length ds ≡ length b
unfolding delete_dated AreDistinct IsThere
length-delete_dated [] b d h v = omega arith
length-delete_dated (x ∷ ds) b d h v = ground (
  arith,
  length-delete_dated ds (remove x.key b) d.1 (IsThere-after x.key b ds d.0 h.1)
      (remove-IsDistinct x.key b v),
  length-remove x.key b v,
  h.0,
)

delete_dated-IsDistinct :
    (ds : List Dated) (b : Bucket) → IsDistinct b → IsDistinct (delete_dated ds b)
unfolding delete_dated
delete_dated-IsDistinct [] b v = v
delete_dated-IsDistinct (d ∷ ds) b v =
    delete_dated-IsDistinct ds (remove d.key b) (remove-IsDistinct d.key b v)

pub evict-IsDistinct : (b : Bucket) → IsDistinct b → IsDistinct (evict b)
unfolding evict
evict-IsDistinct b v = elim (Bool-cases (leb (length (dated b)) journal_max_entries)) [
  | inl fits ↦ rw (evict, fits) v
  | inr full ↦
      rw (evict, full)
        (delete_dated-IsDistinct
          (take (length (dated b) - journal_max_entries) (sort_dated (dated b))) b v)
]

pub length-evict : (b : Bucket) → IsDistinct b → length (evict b) ≤ journal_max_entries
unfolding evict
length-evict b v = elim (Bool-cases (leb (length (dated b)) journal_max_entries)) [
  | inl fits ↦ rw (evict, fits) (ground (arith, length-dated b))
  | inr full ↦
      let oldest = take (length (dated b) - journal_max_entries) (sort_dated (dated b)) in
      rw (evict, full)
        (ground (
          arith,
          length-delete_dated oldest b
              (take-AreDistinct _ _ (sort_dated-AreDistinct (dated b) (dated-AreDistinct b v)))
              (take-All (IsThere b) _ _ (sort_dated-All (IsThere b) (dated b) (dated-IsThere b))) v,
          length-take (length (dated b) - journal_max_entries) (sort_dated (dated b)),
          length-sort_dated (dated b),
          length-dated b,
        ))
]

delete_dated-lookup :
    (j : String) (ds : List Dated) (b : Bucket)
    → (lookup j (delete_dated ds b) ≡ none) ⊎ (lookup j (delete_dated ds b) ≡ lookup j b)
unfolding delete_dated
delete_dated-lookup j [] b = inr refl
delete_dated-lookup j (d ∷ ds) b =
    ground (arith, delete_dated-lookup j ds (remove d.key b), lookup-remove d.key j b)

-- A record is evicted whole or stays as it is.
pub evict-lookup :
    (j : String) (b : Bucket) → (lookup j (evict b) ≡ none) ⊎ (lookup j (evict b) ≡ lookup j b)
unfolding evict
evict-lookup j b = elim (Bool-cases (leb (length (dated b)) journal_max_entries)) [
  | inl fits ↦ rw (evict, fits) (inr refl)
  | inr full ↦
      rw (evict, full)
        (delete_dated-lookup j
          (take (length (dated b) - journal_max_entries) (sort_dated (dated b))) b)
]
