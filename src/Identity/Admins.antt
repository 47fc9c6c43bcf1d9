-- ===== src/Identity/Admins.antt =====
-- The users through any run of the identity calls: one active administrator is left, and the
-- addresses are those of the users.
use gu_gu_manager.Base.{ℕ, ◌+◌, ◌≤◌, ◌≡◌, String, Bool, true, false, List, [], ◌∷◌, arith}
use gu_gu_manager.Base.Maps.{Assoc, lookup, insert}
use gu_gu_manager.Identity.State.{StoredUser, Identities, Platform}
use gu_gu_manager.Identity.Access.{is_active_admin, is_admin_entry}
use gu_gu_manager.Identity.Users.{active_admin_count}
use gu_gu_manager.Identity.Runs.{Step, perform, run, IsFresh, AreFresh}
use gu_gu_manager.Identity.Emails.{AreConsistent, step-AreConsistent}
use gu_gu_manager.Identity.Changes.{IsKeyed, Effect, perform-Effect}

abbrev weight : Bool → ℕ
weight true = 1
weight false = 0

active_admin_count-insert :
    (id : String) (u : StoredUser) (users : Assoc StoredUser)
    → active_admin_count (insert id u users) + weight (is_admin_entry (lookup id users))
      ≡ active_admin_count users + weight (is_active_admin u)
unfolding active_admin_count insert lookup is_admin_entry
active_admin_count-insert id u [] = ground arith
active_admin_count-insert id u ((k, v) ∷ users) =
    ground (arith, active_admin_count-insert id u users)

Effect-count :
    {s s' : Identities}
    → Effect s s'
    → 1 ≤ active_admin_count s.users
    → 1 ≤ active_admin_count s'.users
unfolding is_admin_entry
Effect-count {s} {s'} (Effect.same (users, _)) h = rw users h
Effect-count {s} {s'} (Effect.added u new free users emails) h =
    ground (arith, users, active_admin_count-insert u.user.id u s.users)
Effect-count {s} {s'} (Effect.changed id u u' found alike guarded users emails) h =
    ground (arith, users, found, active_admin_count-insert id u' s.users, guarded)

step-HasAdmin :
    (p : Platform) (step : Step) (s : Identities)
    → IsKeyed s.users
    → IsFresh p step s
    → 1 ≤ active_admin_count s.users
    → 1 ≤ active_admin_count (perform p step s).users
step-HasAdmin p step s keyed new h = Effect-count (perform-Effect p step s keyed new) h

-- A run of the calls, in any order and with any arguments but that new ids are fresh, that starts
-- with consistent users of whom one is an active administrator leaves an active administrator.
pub run-HasAdmin :
    (p : Platform) (steps : List Step) (s : Identities)
    → AreFresh p steps s
    → AreConsistent s
    → 1 ≤ active_admin_count s.users
    → 1 ≤ active_admin_count (run p steps s).users
run-HasAdmin p [] s fresh c h = h
run-HasAdmin p (step ∷ steps) s fresh c h =
    run-HasAdmin p steps (perform p step s) fresh.1 (step-AreConsistent p step s fresh.0 c)
      (step-HasAdmin p step s c.keyed fresh.0 h)
