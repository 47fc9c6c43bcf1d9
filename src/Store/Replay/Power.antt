-- ===== src/Store/Replay/Power.antt =====
-- What a power request that is accepted leaves behind.
use gu_gu_manager.Base.{◌≡◌, String, some, List}
use gu_gu_manager.Base.Maps.{lookup, lookup-insert_same}
use gu_gu_manager.Store.Types.{Operation, User, Server, StartupVariable, Memory}
use gu_gu_manager.Store.Exec.{Result, ok, Exec, ◌>>=◌}
use gu_gu_manager.Store.Idempotency.{remember, put_operation}
use gu_gu_manager.Store.Power.{
  PowerRequest, scope_of, power_operation, accept_power, request_idle, request_busy, request_new,
  request_power,
}
use gu_gu_manager.Store.Exclusion.Queue.{
  Still, Still-pure, Still-lift, Still-gets, Still-if, Still-require, Still-authorize,
  Still-reconcile, Still-find_server, check_startup-Still,
}
use gu_gu_manager.Store.Replay.Ensures.{
  Ensures, Ensures-raise, Ensures-if, Ensures-Still, Ensures-bind,
}
use gu_gu_manager.Store.Replay.Records.{
  IsKeyed, Recorded, record_of, keeps, remember-Ensures, replayed-Ensures, active_then-Ensures,
  accept-Ensures,
}

module _ (template : Memory → Server → Result (List StartupVariable)) (r : PowerRequest) where
  accept_power-Recorded :
      (actor : User) (server : Server) (condition : String) (m : Memory)
      → Recorded
          (scope_of r)
          r.digest
          (power_operation r server)
          (accept_power r actor server condition m)
  unfolding accept_power remember put_operation
  accept_power-Recorded actor server condition m = record {
    known =
        lookup-insert_same (scope_of r) (record_of r.digest (power_operation r server))
          m.idempotency;
    stored =
        lookup-insert_same (power_operation r server).id (power_operation r server) m.operations;
  }

  skip :
      {A : Type 0} (x : Exec A) (f : A → Exec Operation)
      → Still x
      → ((a : A) → Ensures (λ m. Unit {0}) (f a) (Recorded (scope_of r) r.digest))
      → Ensures (λ m. Unit {0}) (x >>= f) (Recorded (scope_of r) r.digest)
  skip x f s h = Ensures-bind _ (λ a m. Unit {0}) _ x f (Ensures-Still (λ ops. Unit {0}) x s) h

  request_idle-Ensures :
      (actor : User) (server : Server) (condition : String)
      → Ensures
          (λ m. Unit {0})
          (request_idle template r actor server condition)
          (Recorded (scope_of r) r.digest)
  unfolding request_idle
  request_idle-Ensures actor server condition = skip _ _ (Still-require _ _) (λ _.
      skip _ _ (Still-if _ _ _ (check_startup-Still template r server) (Still-pure tt)) (λ _.
        accept-Ensures _ _ (accept_power r actor server condition) (power_operation r server)
          (accept_power-Recorded actor server condition)))

  request_busy-Ensures :
      (o : Operation)
      → Ensures
          (λ m. lookup o.id m.operations ≡ some o)
          (request_busy r o)
          (Recorded (scope_of r) r.digest)
  unfolding request_busy
  request_busy-Ensures o =
      Ensures-if _ _ _ _ _ (remember-Ensures (scope_of r) r.digest o) (Ensures-raise _ _ _)

  request_new-Ensures :
      (actor : User)
      → Ensures
          (λ m. IsKeyed m.operations)
          (request_new template r actor)
          (Recorded (scope_of r) r.digest)
  unfolding request_new
  request_new-Ensures actor = keeps _ _ _ (Still-find_server _) λ server.
      keeps _ _ _ (Still-gets _) λ condition. keeps _ _ _ (Still-require _ _) λ _.
        active_then-Ensures (scope_of r) r.digest r.server_id _ _ request_busy-Ensures
          (request_idle-Ensures actor server condition)

  request_power-Ensures :
      Ensures
        (λ m. IsKeyed m.operations)
        (request_power template r)
        (Recorded (scope_of r) r.digest)
  unfolding request_power
  request_power-Ensures = keeps _ _ _ (Still-lift _) λ _. keeps _ _ _ (Still-require _ _) λ _.
      keeps _ _ _ (Still-authorize _ _ _) λ actor.
        keeps _ _ _ (Still-reconcile _)
          λ _. replayed-Ensures (scope_of r) r.digest _ (request_new-Ensures actor)

-- Where each operation stands under its own identifier, a power request that succeeds leaves the
-- answered operation stored, and its key recorded with it and with the digest of the request.
pub request_power-Recorded :
    (template : Memory → Server → Result (List StartupVariable)) (r : PowerRequest) (m : Memory)
    (o : Operation)
    → IsKeyed m.operations
    → (request_power template r m).0 ≡ ok o
    → Recorded (scope_of r) r.digest o (request_power template r m).1
request_power-Recorded template r m o k e = (request_power-Ensures template r).at m k o e
