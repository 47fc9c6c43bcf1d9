-- ===== src/Files/Names.antt =====
-- Splitting at slashes and joining again, and the elements that `path.Clean` keeps of a path.
use gu_gu_manager.Base.{
  ℕ, ◌+◌, ◌-◌, ◌≤◌, ◌≡◌, inl, inr, refl, ap, ◌∙◌, Bool, true, false, not, ◌||◌, List, [], ◌∷◌, ◌++◌,
  ◌==◌, arith, length, length-append, if◌then◌else◌, All, All-append, Bool-cases,
}
use gu_gu_manager.Files.Paths.{Runes, prepend, split, join, is_dot, is_nothing}

abbrev pub is_not_slash : ℕ → Bool
is_not_slash c = not (c == 47)

-- A path without a slash.
abbrev pub IsElement : Runes → Type 0
IsElement p = All (λ c. is_not_slash c ≡ true) p

-- The elements that name a file or a directory.
unfoldable pub named : List Runes → List Runes
named [] = []
named (p ∷ ps) = if is_nothing p || is_dot p then named ps else p ∷ named ps

prepend-All :
    (P : Runes → Type 0) (c : ℕ) (ps : List Runes)
    → ((p : Runes) → P p → P (c ∷ p))
    → P []
    → All P ps
    → All P (prepend c ps)
unfolding prepend
prepend-All P c [] step start h = (step [] start, h)
prepend-All P c (p ∷ ps) step start h = (step p h.0, h.1)

pub split-IsElement : (s : Runes) → All IsElement (split s)
unfolding split
split-IsElement [] = (tt, tt)
split-IsElement (c ∷ s) = elim (Bool-cases (c == 47)) [
  | inl slash ↦ rw slash (tt, split-IsElement s)
  | inr other ↦
      rw other
        (prepend-All IsElement c (split s) (λ p h. (rw other refl, h)) tt (split-IsElement s))
]

-- What holds of each code point of a path holds of those of its elements.
pub split-All : (P : ℕ → Type 0) (s : Runes) → All P s → All (All P) (split s)
unfolding split
split-All P [] h = (tt, tt)
split-All P (c ∷ s) h = elim (Bool-cases (c == 47)) [
  | inl slash ↦ rw slash (tt, split-All P s h.1)
  | inr other ↦
      rw other (prepend-All (All P) c (split s) (λ p hp. (h.0, hp)) tt (split-All P s h.1))
]

pub join-All : (P : ℕ → Type 0) (ps : List Runes) → P 47 → All (All P) ps → All P (join ps)
unfolding join
join-All P [] slash h = tt
join-All P (p ∷ []) slash h = h.0
join-All P (p ∷ q ∷ ps) slash h =
    All-append P p (47 ∷ join (q ∷ ps)) h.0 (slash, join-All P (q ∷ ps) slash h.1)

split-element : (p : Runes) → IsElement p → split p ≡ p ∷ []
unfolding split prepend
split-element [] h = refl
split-element (c ∷ p) h = ground (arith, split-element p h.1, h.0)

split-first : (p s : Runes) → IsElement p → split (p ++ (47 ∷ s)) ≡ p ∷ split s
unfolding split prepend
split-first [] s h = refl
split-first (c ∷ p) s h = ground (arith, split-first p s h.1, h.0)

pub split-join :
    (p : Runes) (ps : List Runes) → All IsElement (p ∷ ps) → split (join (p ∷ ps)) ≡ p ∷ ps
unfolding join
split-join p [] h = split-element p h.0
split-join p (q ∷ ps) h = split-first p (join (q ∷ ps)) h.0 ∙ ap (λ x. p ∷ x) (split-join q ps h.1)

pub named-All : (P : Runes → Type 0) (ps : List Runes) → All P ps → All P (named ps)
unfolding named
named-All P [] h = tt
named-All P (p ∷ ps) h = elim (Bool-cases (is_nothing p || is_dot p)) [
  | inl skipped ↦ rw skipped (named-All P ps h.1)
  | inr kept ↦ rw kept (h.0, named-All P ps h.1)
]

pub named-IsNamed : (ps : List Runes) → All (λ p. (is_nothing p || is_dot p) ≡ false) (named ps)
unfolding named
named-IsNamed [] = tt
named-IsNamed (p ∷ ps) = elim (Bool-cases (is_nothing p || is_dot p)) [
  | inl skipped ↦ rw skipped (named-IsNamed ps)
  | inr kept ↦ rw kept (kept, named-IsNamed ps)
]

pub named_all : (ps : List Runes) → All (λ p. (is_nothing p || is_dot p) ≡ false) ps → named ps ≡ ps
unfolding named
named_all [] h = refl
named_all (p ∷ ps) h = rw (h.0, named_all ps h.1) refl

-- The code points of a joined list, with one for each element.
weight : List Runes → ℕ
weight [] = 0
weight (p ∷ ps) = (length p + 1) + weight ps

weight-split : (s : Runes) → weight (split s) ≡ length s + 1
unfolding split prepend weight
weight-split [] = refl
weight-split (c ∷ s) = ground (arith, weight-split s)

weight-named : (ps : List Runes) → weight (named ps) ≤ weight ps
unfolding weight named
weight-named [] = ground arith
weight-named (p ∷ ps) = ground (arith, weight-named ps)

length-join : (ps : List Runes) → length (join ps) ≤ weight ps - 1
unfolding weight join
length-join [] = ground arith
length-join (p ∷ []) = ground arith
length-join (p ∷ q ∷ ps) =
    ground (arith, length-append p (47 ∷ join (q ∷ ps)), length-join (q ∷ ps))

-- What is kept of a path is not longer than the path.
pub length-join-named : (s : Runes) → length (join (named (split s))) ≤ length s
length-join-named s =
    omega (arith, length-join (named (split s)), weight-named (split s), weight-split s)
