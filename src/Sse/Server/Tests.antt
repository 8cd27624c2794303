-- ===== src/Sse/Server/Tests.antt =====
-- ext/sse/server.go: runs, and the theorems at concrete inputs.
use xun.Base.{◌↔◌, ◌⊎◌, ◌≤◌, ◌≡◌, ◌≢◌, refl, true, false, none, some, [], ◌∷◌, codes, lookup, equal}
use xun.Sse.Server.Defs.{
  Server, new_server, join, leave, sweep, scan, keep_alive, cause_of, client_timeout, send,
  shutdown, Cause,
}
use xun.Sse.Server.Keeps.{IsWellFormed}
use xun.Sse.Server.Reach.{joins, leaves, sweeps, run, run-IsWellFormed, new_server-IsWellFormed}
use xun.Sse.Server.Leaves.{join-leave}
use xun.Sse.Server.Sweep.{keep_alive_lem}
use xun.Sse.Server.Closed.{shutdown-send}

abbrev empty : Server
empty = new_server 10 0

abbrev one : Server
one = (join empty (codes "a") 7 100).server

-- A client that joins again after KeepAlive found it dead, and before KeepAlive takes it out, is
-- taken out and cancelled all the same.
abbrev rejoined : Server
rejoined = (join one (codes "a") 8 200).server

server_tests :
    ((scan one 150 one.clients).0 ≡ 0 ∷ [])
    × (lookup (codes "a") rejoined.conns ≡ some 2)
    × (lookup (codes "a") (sweep rejoined (0 ∷ [])).clients ≡ none)
    × (cause_of (sweep rejoined (0 ∷ [])) 0 ≡ some client_timeout)
    × (lookup (codes "a") (keep_alive one 110).clients ≡ some 0)
    × (lookup (codes "a") (keep_alive one 111).clients ≡ none)
    × (lookup (codes "a") (keep_alive (record one { timeout = 0 }) 111).clients ≡ some 0)
    × ((leave rejoined (codes "a") 1).1 ≡ false)
    × ((leave rejoined (codes "a") 2).1 ≡ true)
unfolding new_server join scan sweep leave equal keep_alive lookup
server_tests = (refl, refl, refl, refl, refl, refl, refl, refl, refl)

run-IsWellFormed_example :
    IsWellFormed (run empty (joins (codes "a") 7 100 ∷ sweeps (0 ∷ []) ∷ leaves (codes "a") 1 ∷ []))
run-IsWellFormed_example =
    run-IsWellFormed (joins (codes "a") 7 100 ∷ sweeps (0 ∷ []) ∷ leaves (codes "a") 1 ∷ []) empty
      (new_server-IsWellFormed 10 0)

one-IsWellFormed : IsWellFormed one
unfolding run
one-IsWellFormed =
    run-IsWellFormed (joins (codes "a") 7 100 ∷ []) empty (new_server-IsWellFormed 10 0)

join-leave_example :
    ((join one (codes "a") 8 200).conn_id ≡ 2)
    × (1 ≢ (join one (codes "a") 8 200).conn_id
        → leave (join one (codes "a") 8 200).server (codes "a") 1
          ≡ ((join one (codes "a") 8 200).server, false))
unfolding new_server join equal
join-leave_example = let (a, b, c) = join-leave one (codes "a") 8 200 1 one-IsWellFormed in (a, b)

keep_alive_lem_example :
    (lookup (codes "a") (keep_alive one 150).clients ≡ some 0)
    ↔ ((lookup (codes "a") one.clients ≡ some 0) × ((one.timeout ≡ 0) ⊎ (150 ≤ 110)))
unfolding new_server join equal lookup
keep_alive_lem_example = (keep_alive_lem one 150 (codes "a") 0 one-IsWellFormed (refl, tt)).0 refl

shutdown-send_example :
    let s = run (shutdown one) (joins (codes "b") 9 300 ∷ []) in
    (c : Cause) × (send s 1 (codes "x") false 301 ≡ (s, some ((s.store 1).id, some c)))
shutdown-send_example = shutdown-send one (joins (codes "b") 9 300 ∷ []) 1 (codes "x") false 301
