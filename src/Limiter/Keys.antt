-- ===== src/Limiter/Keys.antt =====
-- `normalizedLimitKeys`: the keys trimmed, without the empty ones, each once, in order.
use gu_gu_manager.Base.{
  String, ◌||◌, List, [], ◌∷◌, ◌++◌, if◌then◌else◌, is_empty, trim_space, contains,
}

-- One round, with the trimmed key. `result` holds the same keys as the set `seen`, so it serves as
-- both.
unfoldable pub add_key : List String → String → List String
unfolding is_empty contains
add_key result key = if is_empty key || contains key result then result else result ++ key ∷ []

unfoldable pub collect_keys : List String → List String → List String
unfolding add_key trim_space
collect_keys result [] = result
collect_keys result (key ∷ keys) = collect_keys (add_key result (trim_space key)) keys

unfoldable pub normalized_limit_keys : List String → List String
unfolding collect_keys
normalized_limit_keys keys = collect_keys [] keys
