-- ===== src/Files/Portable.antt =====
-- internal/files/filesystem.go: `validatePortablePath`, which `ServerFS.resolve` applies to each path
-- after `NormalizeRelative`. The upper case is written out for the code points whose upper case is an
-- ASCII letter; the names that it is compared with have no others.
use gu_gu_manager.Base.{
  ℕ, ◌-◌, Bool, true, false, not, ◌&&◌, ◌||◌, List, [], ◌∷◌, map, leb, ◌==◌, if◌then◌else◌,
}
use gu_gu_manager.Files.Paths.{
  Runes, Outcome, normalized, refused, PathError, split, contains_rune, is_nothing,
  normalize_relative,
}

abbrev pub to_upper : ℕ → ℕ
to_upper c =
    if leb 97 c && leb c 122 then c - 32 else if c == 305 then 73 else if c == 383 then 83 else c

-- `strings.HasSuffix(component, …)` for one code point.
unfoldable pub ends_in : Runes → ℕ → Bool
ends_in [] c = false
ends_in (d ∷ []) c = d == c
ends_in (d ∷ e ∷ s) c = ends_in (e ∷ s) c

-- `strings.SplitN(component, ".", 2)[0]`
unfoldable pub before_dot : Runes → Runes
before_dot [] = []
before_dot (c ∷ s) = let rest = before_dot s in if c == 46 then [] else c ∷ rest

unfoldable pub same_runes : Runes → Runes → Bool
same_runes [] [] = true
same_runes (c ∷ s) (d ∷ t) = c == d && same_runes s t
same_runes [] (d ∷ t) = false
same_runes (c ∷ s) [] = false

-- `COM1` to `COM9` and `LPT1` to `LPT9`.
unfoldable pub is_port_name : Runes → Bool
unfolding same_runes
is_port_name (a ∷ b ∷ c ∷ d ∷ []) =
    (same_runes (a ∷ b ∷ c ∷ []) (67 ∷ 79 ∷ 77 ∷ [])
      || same_runes (a ∷ b ∷ c ∷ []) (76 ∷ 80 ∷ 84 ∷ []))
    && leb 49 d
    && leb d 57
is_port_name _ = false

unfoldable pub is_windows_device_name : Runes → Bool
unfolding is_port_name same_runes
is_windows_device_name base =
    same_runes base (67 ∷ 79 ∷ 78 ∷ [])
    || same_runes base (80 ∷ 82 ∷ 78 ∷ [])
    || same_runes base (65 ∷ 85 ∷ 88 ∷ [])
    || same_runes base (78 ∷ 85 ∷ 76 ∷ [])
    || same_runes base (67 ∷ 79 ∷ 78 ∷ 73 ∷ 78 ∷ 36 ∷ [])
    || same_runes base (67 ∷ 79 ∷ 78 ∷ 79 ∷ 85 ∷ 84 ∷ 36 ∷ [])
    || is_port_name base

unfoldable pub is_unsafe_component : Runes → Bool
unfolding contains_rune ends_in before_dot is_windows_device_name
is_unsafe_component component =
    is_nothing component
    || contains_rune component 58
    || ends_in component 46
    || ends_in component 32
    || is_windows_device_name (map to_upper (before_dot component))

unfoldable pub all_safe : List Runes → Bool
unfolding is_unsafe_component
all_safe [] = true
all_safe (component ∷ components) = not (is_unsafe_component component) && all_safe components

-- Whether `validatePortablePath` returns no error.
unfoldable pub validate_portable_path : Runes → Bool
unfolding all_safe split
validate_portable_path cleaned = if is_nothing cleaned then true else all_safe (split cleaned)

pub data Resolution : Type 0 where
  resolvable : Runes → Resolution
  unresolvable : PathError → Resolution
  unsafe_path : Resolution

-- The tests of `resolve` before it looks at the file system.
unfoldable pub resolve_clean : Outcome → Resolution
unfolding validate_portable_path
resolve_clean (refused e) = unresolvable e
resolve_clean (normalized cleaned) =
    if validate_portable_path cleaned then resolvable cleaned else unsafe_path

unfoldable pub resolve_path : Runes → Resolution
unfolding resolve_clean
resolve_path requested = resolve_clean (normalize_relative requested)
