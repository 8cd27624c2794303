-- ===== src/Sse/Server/Closed.antt =====
-- ext/sse/server.go and client.go: after Shutdown.
use xun.Base.{
  ℕ, Bool, ◌≡◌, ◌≢◌, refl, inl, inr, Option, none, some, List, [], ◌∷◌, Bytes, lookup, Bool-cases,
  Option-cases, ◌==◌,
}
use xun.Sse.Server.Defs.{
  Cause, client_timeout, server_closed, Server, cause_of, cancel, join, drop_client, leave, sweep,
  send, close, shutdown, first_cause,
}
use xun.Sse.Server.Reach.{Step, joins, leaves, sweeps, sends, closes, shuts_down, step, run}

has_cause : (c : Option Cause) → first_cause c server_closed ≢ none
has_cause none h = cc
has_cause (some c) h = cc

-- The cause of a client, by its own and the server's.
some_cause :
    (own parent : Option Cause)
    → parent ≢ none
    → (c : Cause) × (elim own [ some c ↦ some c | none ↦ parent ] ≡ some c)
some_cause (some c) parent h = (c, refl)
some_cause none (some c) h = (c, refl)
some_cause none none h = elim (h refl) [ ]

abbrev IsClosed : Server → Type 0
IsClosed s = s.cause ≢ none

cancel-IsClosed : (s : Server) (p : ℕ) (why : Cause) → IsClosed s → IsClosed (cancel s p why)
unfolding cancel
cancel-IsClosed s p why h = elim (Option-cases (cause_of s p)) [
  | inl e ↦ rw (e, cancel) h
  | inr (c, e) ↦ rw (e, cancel) h
]

sweep-IsClosed : (ps : List ℕ) (s : Server) → IsClosed s → IsClosed (sweep s ps)
unfolding sweep
sweep-IsClosed [] s h = h
sweep-IsClosed (p ∷ ps) s h =
    sweep-IsClosed ps (drop_client (cancel s p client_timeout) (s.store p).id)
      (cancel-IsClosed s p client_timeout h)

join-IsClosed :
    (s : Server) (id : Bytes) (sm now : ℕ) → IsClosed s → IsClosed (join s id sm now).server
unfolding join
join-IsClosed s id sm now h = elim (Option-cases (lookup id s.clients)) [
  | inl e ↦ rw (e, join) h
  | inr (p, e) ↦ rw (e, join) h
]

leave-IsClosed : (s : Server) (id : Bytes) (n : ℕ) → IsClosed s → IsClosed (leave s id n).0
unfolding leave
leave-IsClosed s id n h = elim (Option-cases (lookup id s.clients)) [
  | inl e ↦ rw (e, leave) h
  | inr (p, e) ↦ elim (Bool-cases ((s.store p).conn_id == n)) [
    | inl b ↦ rw (e, b, leave) (cancel-IsClosed (drop_client s id) p server_closed h)
    | inr b ↦ rw (e, b, leave) h
  ]
]

send-IsClosed :
    (s : Server) (p : ℕ) (text : Bytes) (fails : Bool) (now : ℕ)
    → IsClosed s
    → IsClosed (send s p text fails now).0
unfolding send
send-IsClosed s p text fails now h = elim (Option-cases (cause_of s p)) [
  | inr (c, e) ↦ rw (e, send) h
  | inl e ↦ elim (Bool-cases fails) [ inl b ↦ rw (e, b, send) h | inr b ↦ rw (e, b, send) h ]
]

shutdown-IsClosed : (s : Server) → IsClosed (shutdown s)
unfolding shutdown
shutdown-IsClosed s = has_cause s.cause

step-IsClosed : (s : Server) (t : Step) → IsClosed s → IsClosed (step s t)
unfolding step close
step-IsClosed s (joins id sm now) h = join-IsClosed s id sm now h
step-IsClosed s (leaves id n) h = leave-IsClosed s id n h
step-IsClosed s (sweeps ps) h = sweep-IsClosed ps s h
step-IsClosed s (sends p text fails now) h = send-IsClosed s p text fails now h
step-IsClosed s (closes p) h = cancel-IsClosed s p server_closed h
step-IsClosed s shuts_down h = shutdown-IsClosed s

run-IsClosed : (ts : List Step) (s : Server) → IsClosed s → IsClosed (run s ts)
unfolding run
run-IsClosed [] s h = h
run-IsClosed (t ∷ ts) s h = run-IsClosed ts (step s t) (step-IsClosed s t h)

cause_of-IsClosed : (s : Server) (p : ℕ) → IsClosed s → (c : Cause) × (cause_of s p ≡ some c)
cause_of-IsClosed s p h = some_cause (s.store p).cause s.cause h

-- After Shutdown, whatever calls come later, also of Join: no text reaches any client. Each Send
-- writes nothing, changes nothing, and returns an error with the client's ID and a cause.
pub shutdown-send :
    (s : Server) (ts : List Step) (p : ℕ) (text : Bytes) (fails : Bool) (now : ℕ)
    → let s' = run (shutdown s) ts in
      (c : Cause) × (send s' p text fails now ≡ (s', some ((s'.store p).id, some c)))
unfolding send
shutdown-send s ts p text fails now =
    let s' = run (shutdown s) ts in
    let (c, e) = cause_of-IsClosed s' p (run-IsClosed ts (shutdown s) (shutdown-IsClosed s)) in
    (c, rw (e, send) refl)
