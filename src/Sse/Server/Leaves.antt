-- ===== src/Sse/Server/Leaves.antt =====
-- ext/sse/server.go: joining and leaving.
use xun.Base.{
  ℕ, suc, true, false, ◌≡◌, ◌≢◌, refl, inl, inr, Option, none, some, Bytes, lookup,
  lookup-insert_self, lookup-delete, equal, ◌==◌, ==_refl, if◌then◌else◌, arith, Option-cases,
}
use xun.Sse.Server.Defs.{
  server_closed, Server, cause_of, cancel, join, drop_client, leave, set_client, or_zero, Cause,
}
use xun.Sse.Server.Keeps.{IsWellFormed, cancel-Keeps}

-- The server and client that a Join makes, as a later Leave sees them.
joined :
    (s : Server) (id : Bytes) (sm now : ℕ)
    → IsWellFormed s
    → let j = join s id sm now in
      (lookup id j.server.clients ≡ some j.client)
      × ((j.server.store j.client).conn_id ≡ j.conn_id)
      × (j.conn_id ≡ suc (or_zero (lookup id s.conns)))
unfolding join
joined s id sm now w = elim (Option-cases (lookup id s.clients)) [
  | inl e ↦
      rw (e, join)
        (
          lookup-insert_self id s.fresh s.clients,
          rw (==_refl s.fresh) refl,
          rw (w.missing id e) refl,
        )
  | inr (p, e) ↦ rw (e, join) (e, rw (==_refl p) refl, refl)
]

-- A client's own cause, if it has one.
own_cause :
    (own parent : Option Cause) (why : Cause)
    → own ≡ some why
    → elim own [ some c ↦ some c | none ↦ parent ] ≢ none
own_cause none parent why e h = cc
own_cause (some c) parent why e h = cc

-- Cancelling leaves a cause behind.
cancel-cause_of : (s : Server) (p : ℕ) (why : Cause) → cause_of (cancel s p why) p ≢ none
unfolding cancel
cancel-cause_of s p why h = elim (Option-cases (cause_of s p)) [
  | inl e ↦
      own_cause (set_client s.store p (record (s.store p) { cause = some why }) p).cause s.cause why
        (rw (==_refl p) refl) (rw (e, cancel) at h)
  | inr (c, e) ↦ cc (rw (e, cancel) at h)
]

leave-refused :
    (s : Server) (id : Bytes) (p n : ℕ)
    → lookup id s.clients ≡ some p
    → n ≢ (s.store p).conn_id
    → leave s id n ≡ (s, false)
unfolding leave
leave-refused s id p n e h =
    let b : ((s.store p).conn_id == n) ≡ false = ground (arith, h) in rw (e, b, leave) refl

leave-taken :
    (s : Server) (id : Bytes) (p n : ℕ)
    → lookup id s.clients ≡ some p
    → n ≡ (s.store p).conn_id
    → leave s id n ≡ (cancel (drop_client s id) p server_closed, true)
unfolding leave
leave-taken s id p n e h =
    let b : ((s.store p).conn_id == n) ≡ true = ground (arith, h) in rw (e, b, leave) refl

-- After a Join, whose number is one more than the last of its ID or 1: a Leave with another number
-- is refused and changes nothing, and a Leave with that number takes the ID's client and number
-- out, leaves all other IDs as they are, and ends the client's context.
pub join-leave :
    (s : Server) (id : Bytes) (sm now n : ℕ)
    → IsWellFormed s
    → let j = join s id sm now in
      let left = leave j.server id n in
      (j.conn_id ≡ suc (or_zero (lookup id s.conns)))
      × (n ≢ j.conn_id → left ≡ (j.server, false))
      × (n ≡ j.conn_id
          → (left.1 ≡ true)
            × ((i : Bytes)
                → (lookup i left.0.clients
                    ≡ (if equal id i then none else lookup i j.server.clients))
                  × (lookup i left.0.conns
                      ≡ (if equal id i then none else lookup i j.server.conns)))
            × (cause_of left.0 j.client ≢ none))
join-leave s id sm now n w =
    let j = join s id sm now in
    let (found, number, count) = joined s id sm now w in
    let gone = drop_client j.server id in
    let k = cancel-Keeps gone j.client server_closed in
    (
      count,
      (λ h. leave-refused j.server id j.client n found (rw number h)),
      (λ h. rw (leave-taken j.server id j.client n found (rw number h)) (
        refl,
        (λ i. (
          rw (k.clients, lookup-delete id i j.server.clients) refl,
          rw (k.conns, lookup-delete id i j.server.conns) refl,
        )),
        cancel-cause_of gone j.client server_closed,
      )),
    )
