-- ===== src/Store/Idempotency.antt =====
-- internal/store/operations.go: idempotency keys, and the operation that a server is busy with.
use Prim.Native.Char.{code}
use Prim.Native.String.{◌++◌ as str_append}
use gu_gu_manager.Base.{
  ℕ, String, Bool, true, false, not, ◌&&◌, ◌||◌, Option, none, some, List, [], ◌∷◌, ltb, str_eq,
  if◌then◌else◌, length,
}
use gu_gu_manager.Base.Maps.{Assoc, lookup, insert}
use gu_gu_manager.Store.Types.{Operation, Memory}
use gu_gu_manager.Store.Exec.{Result, ok, err, problem}
use gu_gu_manager.Store.Metadata.{is_terminal_operation, is_exclusive_operation}

-- The characters of a text. A character beyond ASCII is refused by its value, as each of its bytes is.
abbrev pub codes : String → List ℕ
codes String.[] = []
codes (String.◌∷◌ c s) = code c ∷ codes s

unfoldable pub is_printable : List ℕ → Bool
is_printable [] = true
is_printable (c ∷ cs) = not (ltb c 0x20 || ltb 0x7e c) && is_printable cs

unfoldable pub validate_idempotency_key : String → Result (Unit {0})
unfolding is_printable
validate_idempotency_key key =
    if ltb (length (codes key)) 16 || ltb 128 (length (codes key))
    then err (problem "VALIDATION_FAILED" false)
    else if is_printable (codes key)
    then ok tt
    else err (problem "VALIDATION_FAILED" false)

-- `strings.Join(…, "\x00")`.
unfoldable pub idempotency_scope : String → String → String → String → String
idempotency_scope operation actor target key =
    str_append operation (
      str_append "\0"
        (str_append actor (str_append "\0" (str_append target (str_append "\0" key)))))

unfoldable pub idempotent_operation : String → String → Memory → Result (Option Operation)
unfolding lookup
idempotent_operation scope digest m = elim (lookup scope m.idempotency) [
  | none ↦ ok none
  | some r ↦
      if not (str_eq r.request_digest digest)
      then err (problem "IDEMPOTENCY_KEY_REUSED" false)
      else elim (lookup r.operation_id m.operations) [
        | none ↦ err (problem "INTERNAL_ERROR" true)
        | some o ↦ ok (some o)
      ]
]

-- An operation that keeps its server from others.
unfoldable pub is_active_on : String → Operation → Bool
unfolding is_terminal_operation is_exclusive_operation
is_active_on server_id o = not (
    not (str_eq o.server_id server_id)
    || is_terminal_operation o.status
    || not (is_exclusive_operation o.type))

unfoldable pub first_active : String → Assoc Operation → Option Operation
first_active server_id [] = none
first_active server_id ((id, o) ∷ rest) =
    if is_active_on server_id o then some o else first_active server_id rest

unfoldable pub active_exclusive_operation : String → Memory → Option Operation
unfolding first_active
active_exclusive_operation server_id m = first_active server_id m.operations

unfoldable pub put_operation : Operation → Memory → Memory
unfolding insert
put_operation o m = record m { operations = insert o.id o m.operations }

unfoldable pub remember : String → String → String → Memory → Memory
unfolding insert
remember scope operation_id digest m = record m {
  idempotency =
      insert scope (record { operation_id = operation_id; request_digest = digest }) m.idempotency;
}
