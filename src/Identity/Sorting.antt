-- ===== src/Identity/Sorting.antt =====
-- The order of texts, and sorted lists of texts with none twice.
use gu_gu_manager.Base.{
  ◌≡◌, inl, inr, refl, ◌∙◌, String, true, false, ◌||◌, List, [], ◌∷◌, str_eq, eq_iff, arith,
  Bool-cases, contains, All, All-map,
}
use gu_gu_manager.Identity.Names.{text_le, insert_text, sort_texts}

pub contains-insert_text :
    (x s : String) (ts : List String)
    → contains x (insert_text s ts) ≡ (str_eq s x || contains x ts)
unfolding contains insert_text
contains-insert_text x s [] = refl
contains-insert_text x s (t ∷ ts) = ground (arith, contains-insert_text x s ts)

pub contains-sort_texts :
    (x : String) (ts : List String) → contains x (sort_texts ts) ≡ contains x ts
unfolding contains sort_texts
contains-sort_texts x [] = refl
contains-sort_texts x (t ∷ ts) =
    ground (arith, contains-insert_text x t (sort_texts ts), contains-sort_texts x ts)

text_le_total : (s t : String) → text_le s t ≡ false → text_le t s ≡ true
unfolding text_le
text_le_total String.[] t h = absurd (ground arith)
text_le_total (String.◌∷◌ c s) String.[] h = refl
text_le_total (String.◌∷◌ c s) (String.◌∷◌ d t) h = ground (arith, text_le_total s t)

text_le_trans : (s t u : String) → text_le s t ≡ true → text_le t u ≡ true → text_le s u ≡ true
unfolding text_le
text_le_trans String.[] t u h k = refl
text_le_trans (String.◌∷◌ c s) String.[] u h k = absurd (ground arith)
text_le_trans (String.◌∷◌ c s) (String.◌∷◌ d t) String.[] h k = absurd (ground arith)
text_le_trans (String.◌∷◌ c s) (String.◌∷◌ d t) (String.◌∷◌ e u) h k =
    ground (arith, text_le_trans s t u)

-- In order, and no text twice.
abbrev pub IsOrdered : List String → Type 0
IsOrdered [] = Unit
IsOrdered (x ∷ xs) = All (λ y. text_le x y ≡ true) xs × (contains x xs ≡ false) × IsOrdered xs

abbrev pub AreDistinct : List String → Type 0
AreDistinct [] = Unit
AreDistinct (x ∷ xs) = (contains x xs ≡ false) × AreDistinct xs

All-insert_text :
    (P : String → Type 0) (s : String) (ts : List String)
    → P s
    → All P ts
    → All P (insert_text s ts)
unfolding insert_text
All-insert_text P s [] p h = (p, tt)
All-insert_text P s (t ∷ ts) p h = elim (Bool-cases (text_le s t)) [
  | inl le ↦ rw le (p, h)
  | inr gt ↦ rw gt (h.0, All-insert_text P s ts p h.1)
]

insert_text-IsOrdered :
    (s : String) (ts : List String)
    → contains s ts ≡ false
    → IsOrdered ts
    → IsOrdered (insert_text s ts)
unfolding insert_text contains
insert_text-IsOrdered s [] new h = (tt, refl, tt)
insert_text-IsOrdered s (t ∷ ts) new h = elim (Bool-cases (text_le s t)) [
  | inl le ↦ rw le ((le, All-map _ _ ts (λ y. text_le_trans s t y le) h.0), new, h)
  | inr gt ↦ rw gt (
    All-insert_text (λ y. text_le t y ≡ true) s ts (text_le_total s t gt) h.0,
    ground (arith, contains-insert_text t s ts, eq_iff s t, eq_iff t s),
    insert_text-IsOrdered s ts (ground arith) h.2,
  )
]

pub sort_texts-IsOrdered : (ts : List String) → AreDistinct ts → IsOrdered (sort_texts ts)
unfolding sort_texts
sort_texts-IsOrdered [] d = tt
sort_texts-IsOrdered (t ∷ ts) d =
    insert_text-IsOrdered t (sort_texts ts) (contains-sort_texts t ts ∙ d.0)
      (sort_texts-IsOrdered ts d.1)
