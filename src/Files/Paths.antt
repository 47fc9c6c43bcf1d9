-- ===== src/Files/Paths.antt =====
-- internal/files/path.go: `NormalizeRelative`, with `path.Clean` of the language's library. A path is
-- the list of its code points, since the code walks them. `filepath` is that of a Unix build: a path is
-- absolute if it starts with a slash, and has no volume.
use gu_gu_manager.Base.{
  ℕ, Bool, true, false, ◌&&◌, ◌||◌, Option, none, some, List, [], ◌∷◌, ◌++◌, map, ltb, leb, ◌==◌,
  length, if◌then◌else◌,
}

abbrev pub Runes : Type 0
Runes = List ℕ

pub data PathError : Type 0 where
  path_escape path_limit : PathError

pub data Outcome : Type 0 where
  normalized : Runes → Outcome
  refused : PathError → Outcome

-- `strings.ContainsRune`
unfoldable pub contains_rune : Runes → ℕ → Bool
contains_rune [] c = false
contains_rune (d ∷ s) c = d == c || contains_rune s c

-- `strings.ReplaceAll(requested, "\\", "/")`
abbrev pub to_slash : ℕ → ℕ
to_slash c = if c == 92 then 47 else c

abbrev pub to_portable : Runes → Runes
to_portable s = map to_slash s

-- `filepath.IsAbs`, and `strings.HasPrefix(portable, "/")`
abbrev pub is_abs : Runes → Bool
is_abs [] = false
is_abs (c ∷ s) = c == 47

unfoldable pub has_windows_drive_prefix : Runes → Bool
has_windows_drive_prefix (first ∷ second ∷ s) =
    second == 58 && ((leb 65 first && leb first 90) || (leb 97 first && leb first 122))
has_windows_drive_prefix (first ∷ []) = false
has_windows_drive_prefix [] = false

unfoldable pub prepend : ℕ → List Runes → List Runes
prepend c [] = (c ∷ []) ∷ []
prepend c (p ∷ ps) = (c ∷ p) ∷ ps

-- `strings.Split(portable, "/")`
unfoldable pub split : Runes → List Runes
unfolding prepend
split [] = [] ∷ []
split (c ∷ s) = let rest = split s in if c == 47 then [] ∷ rest else prepend c rest

-- `strings.Join(parts, "/")`
unfoldable pub join : List Runes → Runes
join [] = []
join (p ∷ []) = p
join (p ∷ q ∷ ps) = p ++ (47 ∷ join (q ∷ ps))

abbrev pub is_dot : Runes → Bool
is_dot (c ∷ []) = c == 46
is_dot _ = false

abbrev pub is_dot_dot : Runes → Bool
is_dot_dot (c ∷ d ∷ []) = c == 46 && d == 46
is_dot_dot _ = false

abbrev pub is_nothing : Runes → Bool
is_nothing [] = true
is_nothing (c ∷ s) = false

-- What `path.Clean` does at an element `..`, with the elements that it keeps, the last one first.
unfoldable pub go_up : Bool → List Runes → Runes → List Runes
go_up rooted [] p = if rooted then [] else p ∷ []
go_up rooted (q ∷ out) p = if is_dot_dot q then p ∷ q ∷ out else out

unfoldable pub clean_element : Bool → List Runes → Runes → List Runes
unfolding go_up
clean_element rooted out p =
    if is_nothing p || is_dot p then out else if is_dot_dot p then go_up rooted out p else p ∷ out

unfoldable pub clean_elements : Bool → List Runes → List Runes → List Runes
unfolding clean_element
clean_elements rooted out [] = out
clean_elements rooted out (p ∷ ps) = clean_elements rooted (clean_element rooted out p) ps

unfoldable pub reverse_onto : List Runes → List Runes → List Runes
reverse_onto [] out = out
reverse_onto (p ∷ ps) out = reverse_onto ps (p ∷ out)

unfoldable pub or_dot : Runes → Runes
or_dot [] = 46 ∷ []
or_dot (c ∷ s) = c ∷ s

-- `path.Clean`
unfoldable pub clean : Runes → Runes
unfolding clean_elements reverse_onto join split or_dot
clean s =
    let elements = reverse_onto (clean_elements (is_abs s) [] (split s)) [] in
    if is_abs s then 47 ∷ join elements else or_dot (join elements)

-- The loop over the components: the first that is refused decides.
unfoldable pub refused_component : List Runes → Option PathError
refused_component [] = none
refused_component (p ∷ ps) =
    let rest = refused_component ps in
    if ltb 255 (length p) then some path_limit else if is_dot_dot p then some path_escape else rest

-- `clean == ".." || strings.HasPrefix(clean, "../")`
unfoldable pub leads_out : Runes → Bool
leads_out (c ∷ d ∷ []) = c == 46 && d == 46
leads_out (c ∷ d ∷ e ∷ s) = c == 46 && d == 46 && e == 47
leads_out _ = false

-- What follows `path.Clean`.
unfoldable pub settle : Runes → Outcome
unfolding leads_out
settle cleaned =
    if leads_out cleaned
    then refused path_escape
    else if is_dot cleaned
    then normalized []
    else normalized cleaned

unfoldable pub settle_components : Runes → Option PathError → Outcome
unfolding settle clean
settle_components portable (some e) = refused e
settle_components portable none = settle (clean portable)

unfoldable pub normalize_portable : Runes → Outcome
unfolding has_windows_drive_prefix settle_components refused_component split
normalize_portable portable =
    if ltb 1024 (length portable)
    then refused path_limit
    else if is_abs portable || has_windows_drive_prefix portable
    then refused path_escape
    else settle_components portable (refused_component (split portable))

unfoldable pub normalize_relative : Runes → Outcome
unfolding contains_rune normalize_portable
normalize_relative requested =
    if contains_rune requested 0 || is_abs requested
    then refused path_escape
    else normalize_portable (to_portable requested)
