-- ===== src/Files/Forms.antt =====
-- What `normalize_relative` answers for a path that passes its tests: the named elements, joined.
use gu_gu_manager.Base.{
  ℕ, ◌≡◌, refl, ap, ◌∙◌, Bool, true, false, not, ◌||◌, ◌&&◌, List, [], ◌∷◌, ◌++◌, ◌==◌, arith,
  length, leb, All, All-map,
}
use gu_gu_manager.Files.Paths.{
  Runes, normalized, split, join, is_dot, is_dot_dot, is_nothing, is_abs, clean, or_dot, leads_out,
  settle, reverse_onto,
}
use gu_gu_manager.Files.Names.{IsElement, named, split-IsElement, named-All, named-IsNamed}
use gu_gu_manager.Files.Walks.{HasNoDotDot, clean-named, reverse_reverse, IsAllowed}

-- Neither the end of a C text nor a backslash.
abbrev pub is_plain : ℕ → Bool
is_plain c = not (c == 0) && not (c == 92)

-- A component that names a file or a directory.
abbrev pub IsName : Runes → Type 0
IsName p =
    IsElement p
    × ((is_nothing p || is_dot p) ≡ false)
    × (is_dot_dot p ≡ false)
    × (leb (length p) 255 ≡ true)
    × All (λ c. is_plain c ≡ true) p

-- Nothing is changed after `path.Clean` where the first component names something.
settle-join :
    (q : Runes) (qs : List Runes)
    → IsElement q
    → (is_nothing q || is_dot q) ≡ false
    → is_dot_dot q ≡ false
    → settle (or_dot (join (q ∷ qs))) ≡ normalized (join (q ∷ qs))
unfolding settle or_dot join leads_out
settle-join [] qs h named_q up = absurd (ground arith)
settle-join (c ∷ []) [] h named_q up = ground arith
settle-join (c ∷ []) (r ∷ rs) h named_q up = elim (join (r ∷ rs)) [
  | [] ↦ ground arith
  | ◌∷◌ d s ↦ ground arith
]
settle-join (c ∷ d ∷ []) [] h named_q up = ground arith
settle-join (c ∷ d ∷ []) (r ∷ rs) h named_q up = ground arith
settle-join (c ∷ d ∷ e ∷ q) [] h named_q up = ground (arith, h.1.1.0)
settle-join (c ∷ d ∷ e ∷ q) (r ∷ rs) h named_q up = ground (arith, h.1.1.0)

settle-joined :
    (ps : List Runes)
    → All IsElement ps
    → All (λ p. (is_nothing p || is_dot p) ≡ false) ps
    → HasNoDotDot ps
    → settle (or_dot (join ps)) ≡ normalized (join ps)
unfolding settle or_dot join leads_out
settle-joined [] h k l = refl
settle-joined (q ∷ qs) h k l = settle-join q qs h.0 k.0 l.0

append_nil : (ps : List Runes) → ps ++ [] ≡ ps
append_nil [] = refl
append_nil (p ∷ ps) = ap (λ x. p ∷ x) (append_nil ps)

-- `path.Clean` of a path that is not absolute and has no `..`.
clean_lem :
    (t : Runes)
    → is_abs t ≡ false
    → HasNoDotDot (split t)
    → clean t ≡ or_dot (join (named (split t)))
unfolding clean reverse_onto
clean_lem t h k =
    rw (h, clean-named false (split t) [] k, reverse_reverse (named (split t)) [] [])
      (ap (λ ps. or_dot (join ps)) (append_nil (named (split t))))

pub settle-clean :
    (t : Runes)
    → is_abs t ≡ false
    → All IsAllowed (split t)
    → settle (clean t) ≡ normalized (join (named (split t)))
settle-clean t h k =
    let no_up : HasNoDotDot (split t) = All-map IsAllowed _ (split t) (λ p hp. hp.1) k in
    ap settle (clean_lem t h no_up)
    ∙ settle-joined (named (split t)) (named-All IsElement (split t) (split-IsElement t))
        (named-IsNamed (split t)) (named-All _ (split t) no_up)
