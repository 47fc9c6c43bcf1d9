-- ===== src/Identity/Names.antt =====
-- internal/store/identity.go and access_tokens.go: what is accepted as an address, a name, a
-- password, and a set of roles, permissions or scopes.
use Prim.Native.Char.{code}
use gu_gu_manager.Base.{
  ℕ, ◌+◌, ◌*◌, String, Bool, true, false, not, ◌&&◌, ◌||◌, Option, none, some, List, [], ◌∷◌, ◌++◌,
  ltb, leb, ◌==◌, str_eq, if◌then◌else◌, trim_space, contains,
}
use gu_gu_manager.Base.Calls.{Problem, Result, ok, err, problem}
use gu_gu_manager.Identity.State.{Platform}

-- `len([]rune(value))`.
unfoldable pub rune_count : String → ℕ
rune_count String.[] = 0
rune_count (String.◌∷◌ c s) = rune_count s + 1

abbrev pub invalid : Problem
invalid = problem "VALIDATION_FAILED" false

unfoldable pub normalize_email : Platform → String → Result String
unfolding trim_space rune_count
normalize_email p value =
    let normalized = p.to_lower (trim_space value) in
    elim (p.parse_address normalized) [
      | none ↦ err invalid
      | some address ↦
          if not (str_eq address normalized) || ltb 254 (rune_count normalized)
          then err invalid
          else ok normalized
    ]

unfoldable pub validate_display_name : String → Result String
unfolding trim_space rune_count
validate_display_name value =
    let name = trim_space value in
    if ltb (rune_count name) 1 || ltb 64 (rune_count name) then err invalid else ok name

unfoldable pub validate_password : String → Result (Unit {0})
unfolding rune_count
validate_password value =
    if ltb (rune_count value) 8 || ltb 1024 (rune_count value) then err invalid else ok tt

abbrev pub allowed_global_roles : List String
allowed_global_roles = "platform_admin" ∷ "server_owner" ∷ []

abbrev pub allowed_server_permissions : List String
allowed_server_permissions =
    "servers.read" ∷ "servers.power" ∷ "servers.console" ∷ "servers.files.read"
    ∷ "servers.files.write" ∷ "servers.backups.read" ∷ "servers.backups.create"
    ∷ "servers.backups.restore" ∷ "servers.backups.delete" ∷ "servers.network.read"
    ∷ "servers.network.write" ∷ "servers.startup.read" ∷ "servers.startup.write" ∷ []

abbrev pub allowed_api_token_scopes : List String
allowed_api_token_scopes =
    "platform.admin" ∷ "audit.read" ∷ "nodes.manage" ∷ "catalog.manage" ∷ "automation.manage"
    ∷ "notifications.manage" ∷ "storage.manage" ∷ "quotas.manage" ∷ allowed_server_permissions

-- The order of Go's strings: by their bytes, which for UTF-8 is the order of the code points.
unfoldable pub text_le : String → String → Bool
text_le String.[] t = true
text_le (String.◌∷◌ c s) String.[] = false
text_le (String.◌∷◌ c s) (String.◌∷◌ d t) =
    if code c == code d then text_le s t else ltb (code c) (code d)

unfoldable pub insert_text : String → List String → List String
unfolding text_le
insert_text s [] = s ∷ []
insert_text s (t ∷ ts) = if text_le s t then s ∷ t ∷ ts else t ∷ insert_text s ts

-- `sort.Strings`.
unfoldable pub sort_texts : List String → List String
unfolding insert_text
sort_texts [] = []
sort_texts (s ∷ ss) = insert_text s (sort_texts ss)

-- The loop of `normalizeRoles`, `normalizePermissions` and `normalizeAPITokenInput`: `kept` is the
-- slice, whose elements are those of `seen`.
unfoldable pub collect : List String → List String → List String → Result (List String)
unfolding trim_space contains
collect allowed kept [] = ok kept
collect allowed kept (value ∷ values) =
    let name = trim_space value in
    let rest = collect allowed (if contains name kept then kept else kept ++ name ∷ []) values in
    if contains name allowed then rest else err invalid

abbrev pub sorted : Result (List String) → Result (List String)
sorted (ok kept) = ok (sort_texts kept)
sorted (err p) = err p

unfoldable pub no_values : List String → Bool
no_values [] = true
no_values (x ∷ xs) = false

unfoldable pub normalize_roles : List String → Result (List String)
unfolding collect sort_texts no_values
normalize_roles values =
    if no_values values then err invalid else sorted (collect allowed_global_roles [] values)

-- The last test looks in `seen`, which has the elements of the slice.
abbrev pub readable : Result (List String) → Result (List String)
readable (ok kept) = if contains "servers.read" kept then ok kept else err invalid
readable (err p) = err p

unfoldable pub normalize_permissions : List String → Result (List String)
unfolding collect sort_texts no_values contains
normalize_permissions values =
    if no_values values
    then err invalid
    else readable (sorted (collect allowed_server_permissions [] values))

-- `sort.Strings` of the keys of the map.
unfoldable pub all_server_permissions : List String
unfolding sort_texts
all_server_permissions = sort_texts allowed_server_permissions

abbrev pub minute : ℕ
minute = 60000000000

unfoldable pub valid_expiry : ℕ → Option ℕ → Bool
valid_expiry now none = true
valid_expiry now (some expires) =
    ltb (now + minute) expires && leb expires (now + 366 * 24 * 60 * minute)

-- The name and the scopes that `normalizeAPITokenInput` returns; the expiry stays as it is given.
abbrev pub check_expiry :
    String → ℕ → Option ℕ → Result (List String) → Result (String × List String)
check_expiry name now expires (ok scopes) =
    if valid_expiry now expires then ok (name, scopes) else err invalid
check_expiry name now expires (err p) = err p

unfoldable pub normalize_api_token_input :
    String → List String → Option ℕ → ℕ → Result (String × List String)
unfolding trim_space rune_count no_values collect sort_texts valid_expiry
normalize_api_token_input name scopes expires now =
    let trimmed = trim_space name in
    if ltb (rune_count trimmed) 1 || ltb 64 (rune_count trimmed)
    then err invalid
    else if no_values scopes
    then err invalid
    else check_expiry trimmed now expires (sorted (collect allowed_api_token_scopes [] scopes))
