-- ===== src/Tests/Leases.antt =====
-- Leases, and the claim of a task, on a server with one lease.
use code_co_driver.Prelude.{
  Option-cases, is_some, ◌≡◌, refl, sym, ap, ◌⊎◌, inl, inr, Bool, true, false, Option, none, some,
  [], arith,
}
use code_co_driver.Lease.{
  Redis, unheard, Lease, taken, failed, stale_lease, client_error, try_claim, renew, release,
  lease_key, lease_value, fencing_key,
}
use code_co_driver.Prelude.Integers.{pos, negsuc}
use code_co_driver.Lease.Tokens.{parse_token, parse_token-lease_value}
use code_co_driver.Lease.Spec.{Lock, claim as lease_claim}
use code_co_driver.Lease.Stored.{Stores}
use code_co_driver.Lease.Refines.{Simulates, run_call, run_call_refines}
use code_co_driver.Lease.Exclusion.{IsLive, try_claim_exclusive, other_lease_harmless}
use code_co_driver.Lease.Fencing.{Reach, here, next, claim, removal, log_claim}
use code_co_driver.Runtime.{claim_next_task}
use code_co_driver.Prelude.Dict.{get, put, get_or}
use code_co_driver.Prelude.Sort.{sort}
use code_co_driver.Store.{tasks, task, add_run, add_task, new_memory_with_embedding}
use code_co_driver.Runtime.ClaimProgress.{IsReached, claim_next_task-finds}
use code_co_driver.Runtime.ClaimLaws.{Holds, claim_next_task-Holds}
use code_co_driver.Tests.Data.{
  true-not-false, Server, server, server_laws, lease_1, idle_server, busy_store,
}

abbrev leased_server : Server
leased_server = (try_claim server "worker-a" idle_server "task-1" 0).1

lease_1-IsLive : IsLive server leased_server lease_1
unfolding try_claim lease_key lease_value fencing_key get put get_or
lease_1-IsLive = refl

try_claim_exclusive_example :
    (((try_claim server "worker-b" leased_server "task-1" 0).0 ≡ taken)
      ⊎ ((try_claim server "worker-b" leased_server "task-1" 0).0 ≡ failed))
    × IsLive server (try_claim server "worker-b" leased_server "task-1" 0).1 lease_1
try_claim_exclusive_example =
    try_claim_exclusive server server_laws leased_server lease_1 "worker-b" 0 lease_1-IsLive

abbrev stale_lease_1 : Lease
stale_lease_1 = record { task_id = "task-1"; worker_id = "worker-a"; token = 7 }

other_lease_harmless_example :
    (((renew server leased_server stale_lease_1 0).0 ≡ some stale_lease)
      ⊎ ((renew server leased_server stale_lease_1 0).0 ≡ some client_error))
    × ((renew server leased_server stale_lease_1 0).1 ≡ leased_server)
    × ((release server leased_server stale_lease_1).1 ≡ leased_server)
other_lease_harmless_example =
    other_lease_harmless server server_laws leased_server lease_1 stale_lease_1 0 lease_1-IsLive
      refl (ground arith)

-- A server whose answers to SET and to the scripts are lost.
abbrev unheard_server : Redis Server
unheard_server = record server {
  set_nx = λ s k v ttl. (none, (server.set_nx s k v ttl).1);
  fate = λ s. unheard;
}

unheard_claim_runs :
    try_claim unheard_server "worker-a" idle_server "task-1" 0 ≡ (failed, leased_server)
unfolding try_claim lease_key lease_value fencing_key get put get_or
unheard_claim_runs = refl

unheard_release_runs :
    release unheard_server leased_server lease_1
    ≡ (some client_error, (release server leased_server lease_1).1)
unfolding release lease_key lease_value fencing_key get put get_or
unheard_release_runs = refl

-- A claim, its release, and a claim by another worker.
abbrev history :
    Reach server idle_server
      (try_claim server "worker-b" (release server leased_server lease_1).1 "task-1" 0).1
      (log_claim
        (try_claim server "worker-b" (release server leased_server lease_1).1 "task-1" 0).0
        (log_claim (try_claim server "worker-a" idle_server "task-1" 0).0 []))
history =
    next (next (next here (claim "worker-a" "task-1" 0)) (removal lease_1))
      (claim "worker-b" "task-1" 0)

claim_next_task-Holds_example :
    Holds server server_laws "worker-a" busy_store
      (claim_next_task server "worker-a" busy_store busy_store idle_server)
claim_next_task-Holds_example =
    claim_next_task-Holds server server_laws "worker-a" busy_store busy_store idle_server

server-IsReached : IsReached server
server-IsReached = record {
  incr_answers = λ s k e. cc;
  set_nx_answers = λ s k v ttl e. elim (Option-cases (get s.values k)) [
    | inl n ↦ cc (rw n at e)
    | inr (x, h) ↦ cc (rw h at e)
  ];
  set_nx_once = λ s k v ttl s' e. elim (Option-cases (get s.values k)) [
    | inl n ↦
        let e' : ◌≡◌ {A = Option Bool × Server} (some true, record s { values = put s.values k v })
            (some false, s') =
          rw n at e in
        absurd (true-not-false e')
    | inr (x, h) ↦
        let e' : ◌≡◌ {A = Option Bool × Server} (some false, s) (some false, s') = rw h at e in
        ap (λ (p : Option Bool × Server). get p.1.values k) (sym e')
  ];
}

claim_next_task-finds_example :
    is_some (claim_next_task server "worker-a" busy_store busy_store idle_server).0 ≡ true
unfolding tasks task sort add_run add_task put get new_memory_with_embedding
claim_next_task-finds_example =
    claim_next_task-finds server server_laws server-IsReached "worker-a" busy_store busy_store
      idle_server "task-1" refl refl refl

claimed : is_some (claim_next_task server "worker-a" busy_store busy_store idle_server).0 ≡ true
unfolding claim_next_task tasks task sort add_run add_task put get try_claim
    new_memory_with_embedding
claimed = refl

parse_token-lease_value_example : parse_token (lease_value "worker:a" 42) ≡ pos 42
parse_token-lease_value_example = parse_token-lease_value "worker:a" 42 (omega arith)

negative_token_runs : parse_token "w:-7" ≡ negsuc 6
unfolding parse_token
negative_token_runs = refl

great_token_runs : parse_token "w:99999999999999999999" ≡ pos 9223372036854775807
unfolding parse_token
great_token_runs = refl

long_token_runs : parse_token "worker:a:42" ≡ pos 42
unfolding parse_token
long_token_runs = refl

abbrev free_lock : Lock
free_lock = record { holder = λ t. none; counter = λ t. 0 }

idle_server-Stores : Stores server idle_server free_lock
unfolding get get_or
idle_server-Stores = record { values = λ t. refl; counters = λ t. refl }

run_call_refines_example :
    Simulates server free_lock
      (lease_claim "worker-a" "task-1" 0)
      (run_call server idle_server (lease_claim "worker-a" "task-1" 0))
run_call_refines_example =
    run_call_refines server server_laws idle_server free_lock (lease_claim "worker-a" "task-1" 0)
      idle_server-Stores
