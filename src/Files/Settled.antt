-- ===== src/Files/Settled.antt =====
-- Normalizing again what was normalized, and what the server's file system takes.
use gu_gu_manager.Base.{
  ◌≤◌, ◌≡◌, inl, inr, refl, ap, subst, ◌∙◌, true, false, List, [], ◌∷◌, ◌==◌, arith, length, leb,
  if◌then◌else◌, All, All-map, Bool-cases,
}
use gu_gu_manager.Files.Paths.{
  Runes, Outcome, normalized, refused, path_escape, split, join, is_abs, clean, settle,
  settle_components, normalize_portable, normalize_relative, prepend, contains_rune,
  has_windows_drive_prefix, to_portable,
}
use gu_gu_manager.Files.Names.{join-All}
use gu_gu_manager.Files.Walks.{IsAllowed, refused_component-allowed}
use gu_gu_manager.Files.Forms.{is_plain, IsName, settle-clean}
use gu_gu_manager.Files.Confined.{normalize_relative-confined, split-names, split-IsAllowed}
use gu_gu_manager.Files.Portable.{
  resolvable, resolve_path, resolve_clean, validate_portable_path, all_safe, is_unsafe_component,
}

contains_rune-plain : (s : Runes) → All (λ c. is_plain c ≡ true) s → contains_rune s 0 ≡ false
unfolding contains_rune
contains_rune-plain [] h = refl
contains_rune-plain (c ∷ s) h = ground (arith, contains_rune-plain s h.1, h.0)

to_portable-plain : (s : Runes) → All (λ c. is_plain c ≡ true) s → to_portable s ≡ s
to_portable-plain [] h = refl
to_portable-plain (c ∷ s) h = ground (arith, to_portable-plain s h.1, h.0)

is_abs-join : (ps : List Runes) → All IsName ps → is_abs (join ps) ≡ false
unfolding join
is_abs-join [] h = refl
is_abs-join ([] ∷ ps) h = absurd (ground (arith, h.0.1))
is_abs-join ((c ∷ p) ∷ []) h = ground (arith, h.0.0.0)
is_abs-join ((c ∷ p) ∷ q ∷ ps) h = ground (arith, h.0.0.0)

normalize_relative-join :
    (ps : List Runes)
    → All IsName ps
    → leb (length (join ps)) 1024 ≡ true
    → normalize_relative (join ps)
      ≡ (if has_windows_drive_prefix (join ps) then refused path_escape else normalized (join ps))
unfolding normalize_relative normalize_portable settle_components
normalize_relative-join ps h fits =
    let r : Runes = join ps in
    let plain : All (λ c. is_plain c ≡ true) r =
      join-All (λ c. is_plain c ≡ true) ps refl (All-map IsName _ ps (λ q hq. hq.4) h) in
    let allowed : All IsAllowed (split r) = split-IsAllowed ps h in
    let above : is_abs r ≡ false = is_abs-join ps h in
    let answer : settle (clean r) ≡ normalized r =
      settle-clean r above allowed ∙ ap (λ qs. normalized (join qs)) (split-names ps h) in
    rw
      (
        contains_rune-plain r plain,
        above,
        to_portable-plain r plain,
        refused_component-allowed (split r) allowed,
      )
      (ground (arith, answer))

-- A path that was normalized is normal: to normalize it again gives the same path, except that it is
-- refused where it starts with the letter of a Windows drive and a colon.
pub normalize_relative-settled :
    (s r : Runes)
    → normalize_relative s ≡ normalized r
    → normalize_relative r
      ≡ (if has_windows_drive_prefix r then refused path_escape else normalized r)
normalize_relative-settled s r h =
    let (below, names, answer, short, _, _) = normalize_relative-confined s r h in
    let fits : length r ≤ 1024 → leb (length r) 1024 ≡ true = λ _. ground arith in
    rw answer (
      normalize_relative-join below names
        (subst (λ x. leb (length x) 1024 ≡ true) answer (fits short)))

-- A drive letter and its colon would stand in the first component.
drive_prefix-safe :
    (r : Runes) → validate_portable_path r ≡ true → has_windows_drive_prefix r ≡ false
unfolding has_windows_drive_prefix validate_portable_path all_safe is_unsafe_component contains_rune
    split prepend
drive_prefix-safe [] h = refl
drive_prefix-safe (a ∷ []) h = refl
drive_prefix-safe (a ∷ b ∷ s) h = elim (Bool-cases (b == 58)) [
  | inl colon ↦ elim (split s) [ [] ↦ ground (arith, colon) | ◌∷◌ p ps ↦ ground (arith, colon) ]
  | inr other ↦ ground (arith, other)
]

resolve_clean-resolvable :
    (o : Outcome) (r : Runes)
    → resolve_clean o ≡ resolvable r
    → (o ≡ normalized r) × (validate_portable_path r ≡ true)
unfolding resolve_clean
resolve_clean-resolvable (refused e) r h = absurd (ground arith)
resolve_clean-resolvable (normalized q) r h = elim (Bool-cases (validate_portable_path q)) [
  | inl safe ↦
      let same : q ≡ r = ground (arith, safe) in
      (ap normalized same, subst (λ x. validate_portable_path x ≡ true) same safe)
  | inr unsafe ↦ absurd (ground (arith, unsafe))
]

-- A path that the server's file system takes is normal, and is taken again as it is: to normalize it
-- gives the same path, and so does to resolve it.
pub resolve_path-settled :
    (s r : Runes)
    → resolve_path s ≡ resolvable r
    → (normalize_relative r ≡ normalized r) × (resolve_path r ≡ resolvable r)
unfolding resolve_path resolve_clean
resolve_path-settled s r h =
    let (once, safe) = resolve_clean-resolvable (normalize_relative s) r h in
    let again : normalize_relative r ≡ normalized r =
      normalize_relative-settled s r once ∙ rw (drive_prefix-safe r safe) refl in
    (again, rw (again, safe) refl)
