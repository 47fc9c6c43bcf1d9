-- ===== src/Store/Allocations/Ports.antt =====
-- internal/store/operations.go: `nextAllocationPortLocked`, which finds the port of a new server. The
-- loop over the ports is recursion on how many are left up to 65535.
use gu_gu_manager.Base.{
  ℕ, zero, suc, ◌+◌, ◌-◌, ◌≤◌, ◌<◌, ◌≡◌, String, Bool, true, false, Option, none, some, [], ◌∷◌,
  ◌&&◌, ◌==◌, str_eq, if◌then◌else◌,
}
use gu_gu_manager.Base.Maps.{Assoc, lookup}
use gu_gu_manager.Store.Types.{Allocation, Memory}

module _ (node_id bind_ip protocol : String) where
  abbrev is_at : ℕ → Allocation → Bool
  is_at port a =
      str_eq a.node_id node_id
      && str_eq a.bind_ip bind_ip
      && a.port == port
      && str_eq a.protocol protocol

  -- Whether the loop over the allocations finds one at the port.
  unfoldable pub is_used : ℕ → Assoc Allocation → Bool
  is_used port [] = false
  is_used port ((id, a) ∷ rest) = if is_at port a then true else is_used port rest

  -- The loop over the ports, with as many left to try as the first argument says.
  unfoldable pub first_port : ℕ → ℕ → Assoc Allocation → Option ℕ
  unfolding is_used
  first_port zero port m = none
  first_port (suc left) port m =
      let later = first_port left (port + 1) m in if is_used port m then later else some port

  unfoldable pub next_allocation_port : ℕ → Memory → Option ℕ
  unfolding first_port
  next_allocation_port port m = first_port (65536 - port) port m.allocations

  -- The ports from one to before another.
  abbrev pub AreUsed : ℕ → ℕ → Assoc Allocation → Type 0
  AreUsed from to m = (port : ℕ) → from ≤ port → port < to → is_used port m ≡ true

  -- No allocation stands at the port.
  abbrev pub IsVacant : ℕ → Assoc Allocation → Type 0
  IsVacant port m = (id : String) (a : Allocation) → lookup id m ≡ some a → is_at port a ≡ false

  -- The answer to a search of the ports from one to before another.
  abbrev pub IsFirstFree : ℕ → ℕ → Assoc Allocation → Option ℕ → Type 0
  IsFirstFree from to m none = AreUsed from to m
  IsFirstFree from to m (some port) =
      (from ≤ port) × (port < to) × AreUsed from port m × IsVacant port m
