-- ===== src/Store/Exec.antt =====
-- Calls on `Memory` of internal/store/memory.go.
use gu_gu_manager.Base.Calls.{Call}
use gu_gu_manager.Store.Types.{Memory}
pub use gu_gu_manager.Base.Calls.{Result, ok, err, continue, ◌>>◌, problem, or_problem}
unfoldable pub use gu_gu_manager.Base.Calls.{pure, raise, lift, gets, modify, require, ◌>>=◌}

abbrev pub Exec : Type 0 → Type 0
Exec A = Call Memory A
