-- ===== src/Store/Allocations/Mutations.antt =====
-- The changes that `CreateAllocation`, `SetPrimaryAllocation` and `DeleteAllocation` of
-- internal/store/network_startup.go hand to `requestReconcile`. The input of a new allocation is the
-- one that `normalizeAllocationInput` returned.
use Prim.Native.String.{◌++◌ as str_append}
use Prim.Native.Char.{code}
use gu_gu_manager.Base.{
  ℕ, zero, suc, ◌/◌, ◌%◌, String, Bool, true, false, not, ◌&&◌, ◌||◌, none, some, List, [], ◌∷◌,
  ◌++◌, ltb, leb, ◌==◌, str_eq, if◌then◌else◌, length,
}
use gu_gu_manager.Base.Maps.{Assoc, lookup, insert, remove}
use gu_gu_manager.Store.Types.{Allocation, Server, Memory}
use gu_gu_manager.Store.Exec.{ok, err, Exec, problem}

pub record CreateAllocationInput : Type 0 where
  pub bind_ip : String
  pub port : ℕ
  pub protocol : String
  pub port_ref : String
  pub container_port : ℕ
  pub role : String
  pub primary : Bool

-- What the map gives for a key that is not there.
abbrev pub zero_allocation : Allocation
zero_allocation = record {
  id = "";
  server_id = "";
  node_id = "";
  bind_ip = "";
  port = 0;
  protocol = "";
  port_ref = "";
  container_port = 0;
  role = "";
  primary = false;
  created_at = 0;
  updated_at = 0;
}

unfoldable pub allocation_or_zero : String → Assoc Allocation → Allocation
unfolding lookup
allocation_or_zero id m = elim (lookup id m) [ none ↦ zero_allocation | some a ↦ a ]

unfoldable pub order_of : String → Memory → List String
unfolding lookup
order_of server_id m = elim (lookup server_id m.allocation_order) [ none ↦ [] | some ids ↦ ids ]

unfoldable pub digit : ℕ → String
digit n =
    if n == 0
    then "0"
    else if n == 1
    then "1"
    else if n == 2
    then "2"
    else if n == 3
    then "3"
    else if n == 4
    then "4"
    else if n == 5
    then "5"
    else if n == 6
    then "6"
    else if n == 7
    then "7"
    else if n == 8
    then "8"
    else "9"

-- `strconv.Itoa`, for numbers of at most as many digits as the first argument.
unfoldable pub itoa : ℕ → ℕ → String
unfolding digit
itoa zero n = ""
itoa (suc fuel) n =
    let front = itoa fuel (n / 10) in
    if ltb n 10 then digit n else str_append front (digit (n % 10))

unfoldable pub has_colon : String → Bool
has_colon String.[] = false
has_colon (String.◌∷◌ c s) = code c == b':' || has_colon s

-- `net.JoinHostPort`. A port has at most five digits.
unfoldable pub allocation_address : Allocation → String
unfolding itoa has_colon
allocation_address a =
    if has_colon a.bind_ip
    then str_append "[" (str_append a.bind_ip (str_append "]:" (itoa 5 a.port)))
    else str_append a.bind_ip (str_append ":" (itoa 5 a.port))

unfoldable pub is_taken_by : Server → CreateAllocationInput → Allocation → Bool
is_taken_by server input a =
    str_eq a.node_id server.node_id
    && str_eq a.bind_ip input.bind_ip
    && a.port == input.port
    && str_eq a.protocol input.protocol

unfoldable pub is_taken : Server → CreateAllocationInput → Assoc Allocation → Bool
unfolding is_taken_by
is_taken server input [] = false
is_taken server input ((id, a) ∷ rest) =
    if is_taken_by server input a then true else is_taken server input rest

-- The loops over the order of a server: each of its allocations is primary or not by a test.
unfoldable pub mark_primary :
    (String → Bool) → ℕ → List String → Assoc Allocation → Assoc Allocation
unfolding allocation_or_zero insert
mark_primary test now [] m = m
mark_primary test now (id ∷ ids) m =
    mark_primary test now ids
      (insert id (record (allocation_or_zero id m) { primary = test id; updated_at = now }) m)

abbrev pub is_none : List String → Bool
is_none [] = true
is_none (id ∷ ids) = false

abbrev pub no_id : String → Bool
no_id id = false

module _ (server_id : String) (now : ℕ) where
  unfoldable pub new_allocation : String → CreateAllocationInput → Bool → Server → Allocation
  new_allocation new_id input primary server = record {
    id = new_id;
    server_id = server_id;
    node_id = server.node_id;
    bind_ip = input.bind_ip;
    port = input.port;
    protocol = input.protocol;
    port_ref = input.port_ref;
    container_port = input.container_port;
    role = input.role;
    primary = primary;
    created_at = now;
    updated_at = now;
  }

  unfoldable pub add_allocation : String → CreateAllocationInput → Bool → Server → Memory → Memory
  unfolding new_allocation mark_primary order_of insert
  add_allocation new_id input primary server m = record m {
    allocations = insert new_id (new_allocation new_id input primary server) (
        if primary
        then mark_primary no_id now (order_of server_id m) m.allocations
        else m.allocations);
    allocation_order = insert server_id (order_of server_id m ++ new_id ∷ []) m.allocation_order;
  }

  unfoldable pub create_mutation : String → CreateAllocationInput → Server → Exec Server
  unfolding is_taken add_allocation allocation_address order_of new_allocation
  create_mutation new_id input server m =
      let primary = input.primary || is_none (order_of server_id m) in
      if is_taken server input m.allocations then (err (problem "PORT_CONFLICT" false), m) else (
        ok (
            if primary
            then record server {
              allocation = allocation_address (new_allocation new_id input primary server);
            }
            else server),
        add_allocation new_id input primary server m,
      )

  unfoldable pub set_primary_mutation : String → Server → Exec Server
  unfolding lookup mark_primary order_of allocation_address insert
  set_primary_mutation allocation_id server m = elim (lookup allocation_id m.allocations) [
    | none ↦ (err (problem "NOT_FOUND" false), m)
    | some target ↦
        if not (str_eq target.server_id server_id) then (err (problem "NOT_FOUND" false), m) else (
          ok (record server { allocation = allocation_address target }),
          record m {
            allocations =
                insert allocation_id (record target { primary = true; updated_at = now })
                  (mark_primary (λ id. str_eq id allocation_id) now (order_of server_id m)
                    m.allocations);
          },
        )
  ]

unfoldable pub exclude : String → List String → List String
exclude id [] = []
exclude id (x ∷ xs) = let rest = exclude id xs in if str_eq x id then rest else x ∷ rest

unfoldable pub delete_mutation : String → String → Server → Exec Server
unfolding lookup exclude order_of insert remove
delete_mutation server_id allocation_id server m = elim (lookup allocation_id m.allocations) [
  | none ↦ (err (problem "NOT_FOUND" false), m)
  | some a ↦
      if not (str_eq a.server_id server_id)
      then (err (problem "NOT_FOUND" false), m)
      else if leb (length (order_of server_id m)) 1
      then (err (problem "OPERATION_CONFLICT" false), m)
      else if a.primary
      then (err (problem "OPERATION_CONFLICT" false), m)
      else (
        ok server,
        record m {
          allocations = remove allocation_id m.allocations;
          allocation_order =
              insert server_id (exclude allocation_id (order_of server_id m)) m.allocation_order;
        },
      )
]
