-- ===== src/Files/Walks.antt =====
-- The directory that a path leads to, as the names of the directories above it, and how `path.Clean`
-- keeps it.
use gu_gu_manager.Base.{
  ◌≡◌, inl, inr, refl, Bool, true, false, ◌||◌, none, List, [], ◌∷◌, ◌++◌, arith, length, leb,
  if◌then◌else◌, All, Bool-cases,
}
use gu_gu_manager.Files.Paths.{
  Runes, is_dot, is_dot_dot, is_nothing, clean_elements, clean_element, reverse_onto,
  refused_component,
}
use gu_gu_manager.Files.Names.{named}

-- One step: the directory itself, its parent, or what is in it.
unfoldable pub step : List Runes → Runes → List Runes
step [] p = if is_nothing p || is_dot p || is_dot_dot p then [] else p ∷ []
step (d ∷ here) p =
    if is_nothing p || is_dot p then d ∷ here else if is_dot_dot p then here else p ∷ d ∷ here

-- Where the elements of a path lead from a directory, the innermost name first.
unfoldable pub walk : List Runes → List Runes → List Runes
unfolding step
walk here [] = here
walk here (p ∷ ps) = walk (step here p) ps

abbrev pub HasNoDotDot : List Runes → Type 0
HasNoDotDot ps = All (λ p. is_dot_dot p ≡ false) ps

-- Without `..`, a path leads down along the elements that name something.
pub walk-named :
    (ps here : List Runes) → HasNoDotDot ps → walk here ps ≡ reverse_onto (named ps) here
unfolding walk step named reverse_onto
walk-named [] here h = refl
walk-named (p ∷ ps) [] h = elim (Bool-cases (is_nothing p || is_dot p)) [
  | inl skipped ↦ ground (arith, walk-named ps [] h.1, h.0)
  | inr kept ↦ ground (arith, walk-named ps (p ∷ []) h.1, h.0)
]
walk-named (p ∷ ps) (d ∷ here) h = elim (Bool-cases (is_nothing p || is_dot p)) [
  | inl skipped ↦ ground (arith, walk-named ps (d ∷ here) h.1, h.0)
  | inr kept ↦ ground (arith, walk-named ps (p ∷ d ∷ here) h.1, h.0)
]

pub clean-named :
    (rooted : Bool) (ps out : List Runes)
    → HasNoDotDot ps
    → clean_elements rooted out ps ≡ reverse_onto (named ps) out
unfolding clean_elements clean_element named reverse_onto
clean-named rooted [] out h = refl
clean-named rooted (p ∷ ps) out h = elim (Bool-cases (is_nothing p || is_dot p)) [
  | inl skipped ↦ rw (skipped) (clean-named rooted ps out h.1)
  | inr kept ↦ rw (kept, h.0) (clean-named rooted ps (p ∷ out) h.1)
]

pub reverse_reverse :
    (ps out rest : List Runes)
    → reverse_onto (reverse_onto ps out) rest ≡ reverse_onto out (ps ++ rest)
unfolding reverse_onto
reverse_reverse [] out rest = refl
reverse_reverse (p ∷ ps) out rest = reverse_reverse ps (p ∷ out) rest

abbrev pub IsAllowed : Runes → Type 0
IsAllowed p = (leb (length p) 255 ≡ true) × (is_dot_dot p ≡ false)

-- A component is refused if it is too long or `..`, and for no other reason.
pub refused_component-none : (ps : List Runes) → refused_component ps ≡ none → All IsAllowed ps
unfolding refused_component
refused_component-none [] h = tt
refused_component-none (p ∷ ps) h =
    ((ground arith, ground arith), refused_component-none ps (ground arith))

pub refused_component-allowed : (ps : List Runes) → All IsAllowed ps → refused_component ps ≡ none
unfolding refused_component
refused_component-allowed [] h = refl
refused_component-allowed (p ∷ ps) h =
    ground (arith, refused_component-allowed ps h.1, h.0.0, h.0.1)
