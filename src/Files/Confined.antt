-- ===== src/Files/Confined.antt =====
-- A normalized path stays below the server's directory, and is normal.
use gu_gu_manager.Base.{
  ◌≤◌, ◌≡◌, inl, inr, refl, ap, sym, subst, ◌↔◌, ◌∙◌, true, false, ◌||◌, List, [], ◌∷◌, arith,
  length, leb, All, All-map, Bool-cases, Option-cases, leb→le,
}
use gu_gu_manager.Files.Paths.{
  Runes, normalized, split, join, is_dot, is_nothing, is_abs, clean, settle, settle_components,
  refused_component, normalize_portable, normalize_relative, contains_rune,
  has_windows_drive_prefix, to_portable, reverse_onto,
}
use gu_gu_manager.Files.Names.{
  IsElement, named, split-IsElement, split-All, split-join, named_all, length-join-named,
}
use gu_gu_manager.Files.Walks.{
  walk, walk-named, HasNoDotDot, IsAllowed, refused_component-none, refused_component-allowed,
}
use gu_gu_manager.Files.Forms.{is_plain, IsName, settle-clean}

-- A path and its portable form that no test refuses.
abbrev pub IsTested : Runes → Runes → Type 0
IsTested s t =
    (contains_rune s 0 ≡ false)
    × (leb (length t) 1024 ≡ true)
    × (is_abs t ≡ false)
    × All IsAllowed (split t)
    × (has_windows_drive_prefix t ≡ false)

normalized_tests :
    (s r : Runes)
    → normalize_relative s ≡ normalized r
    → IsTested s (to_portable s) × (r ≡ join (named (split (to_portable s))))
unfolding normalize_relative normalize_portable settle_components
normalized_tests s r h =
    let t : Runes = to_portable s in
    elim (Option-cases (refused_component (split t))) [
      | inl passed ↦
          let allowed : All IsAllowed (split t) = refused_component-none (split t) passed in
          let above : is_abs t ≡ false = ground (arith, passed) in
          let answer : settle (clean t) ≡ normalized (join (named (split t))) =
            settle-clean t above allowed in
          (
            (
              ground (arith, passed),
              ground (arith, passed),
              above,
              allowed,
              ground (arith, passed),
            ),
            ground (arith, passed, answer),
          )
      | inr (e, failed) ↦ absurd (ground (arith, failed))
    ]

is_abs-to_portable : (s : Runes) → is_abs (to_portable s) ≡ false → is_abs s ≡ false
is_abs-to_portable [] h = refl
is_abs-to_portable (c ∷ s) h = ground arith

tested-normalized :
    (s : Runes)
    → IsTested s (to_portable s)
    → normalize_relative s ≡ normalized (join (named (split (to_portable s))))
unfolding normalize_relative normalize_portable settle_components contains_rune
tested-normalized s (nul, short, above, allowed, drive) =
    let t : Runes = to_portable s in
    let relative : is_abs s ≡ false = is_abs-to_portable s above in
    rw (nul, relative, above, drive, refused_component-allowed (split t) allowed)
      (ground (arith, settle-clean t above allowed))

-- A path is normalized exactly if it has no NUL, does not start with a slash or a backslash or with the
-- letter of a drive and a colon, has no more than 1,024 code points, and each of its components has no
-- more than 255 and is not `..`; the others are refused.
pub normalize_relative-IsTested :
    (s : Runes) → IsTested s (to_portable s) ↔ ((r : Runes) × (normalize_relative s ≡ normalized r))
normalize_relative-IsTested s = (
  λ h. (join (named (split (to_portable s))), tested-normalized s h),
  λ h. (normalized_tests s h.0 h.1).0,
)

plain-to_portable :
    (s : Runes) → contains_rune s 0 ≡ false → All (λ c. is_plain c ≡ true) (to_portable s)
unfolding contains_rune
plain-to_portable [] h = tt
plain-to_portable (c ∷ s) h = (ground arith, plain-to_portable s (ground arith))

named-IsName :
    (ps : List Runes)
    → All IsElement ps
    → All IsAllowed ps
    → All (All (λ c. is_plain c ≡ true)) ps
    → All IsName (named ps)
unfolding named
named-IsName [] h k l = tt
named-IsName (p ∷ ps) h k l = elim (Bool-cases (is_nothing p || is_dot p)) [
  | inl skipped ↦ rw skipped (named-IsName ps h.1 k.1 l.1)
  | inr kept ↦ rw kept ((h.0, kept, k.0.1, k.0.0, l.0), named-IsName ps h.1 k.1 l.1)
]

tested-IsName :
    (s : Runes) → IsTested s (to_portable s) → All IsName (named (split (to_portable s)))
tested-IsName s (nul, _, _, allowed, _) =
    let t : Runes = to_portable s in
    named-IsName (split t) (split-IsElement t) allowed
      (split-All (λ c. is_plain c ≡ true) t (plain-to_portable s nul))

-- What is joined from names splits into them, if there are any.
pub split-names : (ps : List Runes) → All IsName ps → named (split (join ps)) ≡ ps
unfolding join split named
split-names [] h = refl
split-names (p ∷ ps) h =
    ap named (split-join p ps (All-map IsName IsElement (p ∷ ps) (λ q hq. hq.0) h))
    ∙ named_all (p ∷ ps) (All-map IsName _ (p ∷ ps) (λ q hq. hq.1) h)

pub split-IsAllowed : (ps : List Runes) → All IsName ps → All IsAllowed (split (join ps))
unfolding join split
split-IsAllowed [] h = ((refl, refl), tt)
split-IsAllowed (p ∷ ps) h =
    subst (λ qs. All IsAllowed qs)
      (sym (split-join p ps (All-map IsName IsElement (p ∷ ps) (λ q hq. hq.0) h)))
      (All-map IsName IsAllowed (p ∷ ps) (λ q hq. (hq.3, hq.2)) h)

-- A path that is normalized names entries from the directory of the server down: from any directory, it
-- and the path that was requested lead to the same place, below that directory along names, of which
-- none is empty, `.`, `..`, longer than 255 code points or has a slash, a backslash or a NUL; the
-- answer has no more than 1,024 code points.
pub normalize_relative-confined :
    (s r : Runes)
    → normalize_relative s ≡ normalized r
    → (below : List Runes) × All IsName below
      × (r ≡ join below)
      × (length r ≤ 1024)
      × ((here : List Runes) → walk here (split (to_portable s)) ≡ reverse_onto below here)
      × ((here : List Runes) → walk here (split r) ≡ reverse_onto below here)
normalize_relative-confined s r h =
    let t : Runes = to_portable s in
    let below : List Runes = named (split t) in
    let (tested, answer) = normalized_tests s r h in
    let names : All IsName below = tested-IsName s tested in
    let no_up : (ps : List Runes) → All IsAllowed ps → HasNoDotDot ps =
      λ ps k. All-map IsAllowed _ ps (λ p hp. hp.1) k in
    let short : length t ≤ 1024 = leb→le (length t) 1024 tested.1 in
    let size : length (join below) ≤ 1024 = omega (arith, length-join-named t) in
    (
      below,
      names,
      answer,
      rw answer size,
      λ here. walk-named (split t) here (no_up (split t) tested.3),
      λ here. rw answer (
          walk-named (split (join below)) here
            (no_up (split (join below)) (split-IsAllowed below names))
          ∙ ap (λ ps. reverse_onto ps here) (split-names below names)),
    )
