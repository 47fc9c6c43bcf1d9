-- ===== src/Store/Tests.antt =====
-- Runs of the store on a small memory, and the theorems at inputs that meet their hypotheses.
use gu_gu_manager.Base.{
  arith, eq_iff, contains, Bool-cases, inl, inr, str_eq, ◌+◌, ◌≡◌, ◌↔◌, refl, false, some,
}
use gu_gu_manager.Base.Maps.{lookup}
use gu_gu_manager.Store.Allocations.Mutations.{order_of}
use gu_gu_manager.Store.Allocations.Places.{place}
use gu_gu_manager.Store.Allocations.Ports.{next_allocation_port}
use gu_gu_manager.Store.Allocations.Endpoints.{IsDisjoint}
use gu_gu_manager.Store.Allocations.Safety.{creates, call, call-IsDisjoint}
use gu_gu_manager.Store.Exec.{problem, ok}
use gu_gu_manager.Store.Metadata.{new_queued_operation, normalize_operation_metadata}
use gu_gu_manager.Store.Access.{current_actor, authorize_server}
use gu_gu_manager.Store.Denial as Denial
use gu_gu_manager.Store.Denial.{IsRefusal, ask, ask-IsRefusal}
use gu_gu_manager.Store.Rights.{IsEntitled, authorize_server-IsEntitled}
use gu_gu_manager.Store.Lifecycle.{IsConsistent, normalize_operation_metadata-IsConsistent}
use gu_gu_manager.Store.Exclusion.Operations.{IsExclusive}
use gu_gu_manager.Store.Exclusion.Runs.{run, run-IsExclusive}
use gu_gu_manager.Store.Samples.{
  admin, memory, no_variables, start_request, plain_checksum, plain_manifest, steps, started,
  first_allocation, network, allocation_request, second_port,
}

run-IsExclusive_example :
    IsExclusive (run no_variables plain_checksum plain_manifest steps memory).operations
run-IsExclusive_example =
    run-IsExclusive no_variables plain_checksum plain_manifest steps memory refl

network-IsDisjoint : IsDisjoint network
unfolding lookup order_of contains
network-IsDisjoint = record {
  endpoints = λ i j p q e f same. ground (arith, eq_iff "a1" i, eq_iff "a1" j);
  owned = λ server id r. elim (Bool-cases (str_eq "s1" server)) [
    | inl here ↦ elim (Bool-cases (str_eq "a1" id)) [
      | inl self ↦ (place first_allocation, rw self refl, (eq_iff "s1" server).0 here)
      | inr other ↦ absurd (ground arith)
    ]
    | inr elsewhere ↦ absurd (ground arith)
  ];
}

call-IsDisjoint_example : IsDisjoint (call (creates allocation_request "a2" second_port) network)
unfolding lookup
call-IsDisjoint_example =
    call-IsDisjoint (creates allocation_request "a2" second_port) network refl network-IsDisjoint

normalize_operation_metadata-IsConsistent_example :
    IsConsistent (normalize_operation_metadata (record started { attempt = 0; status = "failed" }))
    × ((normalize_operation_metadata (record started { attempt = 0; status = "failed" })).status
        ≡ "failed")
unfolding new_queued_operation
normalize_operation_metadata-IsConsistent_example =
    normalize_operation_metadata-IsConsistent (record started { attempt = 0; status = "failed" })

-- A user that is not known may not start the server.
ask-IsRefusal_example :
    IsRefusal memory
      (ask no_variables (Denial.power (record start_request { actor_id = "u2" })) memory)
unfolding authorize_server current_actor lookup
ask-IsRefusal_example =
    ask-IsRefusal no_variables (Denial.power (record start_request { actor_id = "u2" })) memory
      (problem "FORBIDDEN" false) refl

authorize_server-IsEntitled_example :
    (authorize_server memory "u1" "s1" "servers.power" ≡ ok admin)
    ↔ IsEntitled memory "u1" "s1" "servers.power" admin
authorize_server-IsEntitled_example =
    authorize_server-IsEntitled memory "u1" "s1" "servers.power" admin

-- The port of the first allocation is taken, the next one is free.
next_port :
    next_allocation_port "n1" first_allocation.bind_ip "tcp" first_allocation.port network
    ≡ some (first_allocation.port + 1)
unfolding next_allocation_port
next_port = refl
