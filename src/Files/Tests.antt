-- ===== src/Files/Tests.antt =====
-- Runs of the path functions, and the theorems on them at concrete paths.
use Prim.Native.Char.{code}
use gu_gu_manager.Base.{◌≡◌, ◌↔◌, refl, String, List, [], ◌∷◌, All, length, ◌≤◌}
use gu_gu_manager.Files.Paths.{
  Runes, has_windows_drive_prefix, normalized, refused, path_escape, split, join, to_portable,
  normalize_relative, clean, reverse_onto,
}
use gu_gu_manager.Files.Portable.{resolve_path, resolvable, unsafe_path}
use gu_gu_manager.Files.Walks.{walk}
use gu_gu_manager.Files.Forms.{IsName}
use gu_gu_manager.Files.Confined.{
  IsTested, normalize_relative-IsTested, normalize_relative-confined,
}
use gu_gu_manager.Files.Settled.{normalize_relative-settled, resolve_path-settled}

abbrev runes : String → Runes
runes String.[] = []
runes (String.◌∷◌ c s) = code c ∷ runes s

cleaned : clean (runes "a//./b/../c/") ≡ runes "a/c"
unfolding clean
cleaned = refl

cleaned_root : clean (runes "/../a/..") ≡ runes "/"
unfolding clean
cleaned_root = refl

escape : normalize_relative (runes "a/../../etc") ≡ refused path_escape
unfolding normalize_relative
escape = refl

backslashes : normalize_relative (runes "world\\region/r.0") ≡ normalized (runes "world/region/r.0")
unfolding normalize_relative
backslashes = refl

whole : normalize_relative (runes "./") ≡ normalized []
unfolding normalize_relative
whole = refl

-- The prefix of a drive is seen only where the path starts with it.
drive : normalize_relative (runes "C:/x") ≡ refused path_escape
unfolding normalize_relative
drive = refl

drive_behind_dot : normalize_relative (runes "./C:/x") ≡ normalized (runes "C:/x")
unfolding normalize_relative
drive_behind_dot = refl

device : resolve_path (runes "logs/com1.txt") ≡ unsafe_path
unfolding resolve_path normalize_relative
device = refl

resolved : resolve_path (runes "./logs//latest.log") ≡ resolvable (runes "logs/latest.log")
unfolding resolve_path normalize_relative
resolved = refl

normalize_relative-IsTested_example :
    IsTested (runes "a/../../etc") (to_portable (runes "a/../../etc"))
    ↔ ((r : Runes) × (normalize_relative (runes "a/../../etc") ≡ normalized r))
normalize_relative-IsTested_example = normalize_relative-IsTested (runes "a/../../etc")

normalize_relative-confined_example :
    (below : List Runes) × All IsName below
    × (runes "world/region/r.0" ≡ join below)
    × (length (runes "world/region/r.0") ≤ 1024)
    × ((here : List Runes)
        → walk here (split (to_portable (runes "world\\region/r.0"))) ≡ reverse_onto below here)
    × ((here : List Runes) → walk here (split (runes "world/region/r.0")) ≡ reverse_onto below here)
normalize_relative-confined_example =
    normalize_relative-confined (runes "world\\region/r.0") (runes "world/region/r.0") backslashes

normalize_relative-settled_example : normalize_relative (runes "C:/x") ≡ refused path_escape
unfolding has_windows_drive_prefix
normalize_relative-settled_example =
    normalize_relative-settled (runes "./C:/x") (runes "C:/x") drive_behind_dot

resolve_path-settled_example :
    (normalize_relative (runes "logs/latest.log") ≡ normalized (runes "logs/latest.log"))
    × (resolve_path (runes "logs/latest.log") ≡ resolvable (runes "logs/latest.log"))
resolve_path-settled_example =
    resolve_path-settled (runes "./logs//latest.log") (runes "logs/latest.log") resolved
