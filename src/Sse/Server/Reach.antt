-- ===== src/Sse/Server/Reach.antt =====
-- ext/sse/server.go and client.go: what any interleaving of the operations keeps.
use mathlib.Core.Path.{subst}
use xun.Base.{
  ℕ, suc, Bool, true, false, ◌≡◌, refl, sym, ap, ◌∙◌, ◌<◌, inl, inr, Option, none, some, List, [],
  ◌∷◌, Bytes, lookup, lookup-insert, lookup-delete, equal, equal_iff, equal_refl, Dict, ◌==◌,
  ==_iff, ==_refl, ◌≤◌, ◌⊎◌, if◌then◌else◌, arith, Bool-cases, Option-cases, some_inj,
}
use xun.Sse.Server.Defs.{
  client_timeout, server_closed, Client, Server, new_server, cancel, join, drop_client, leave,
  sweep, send, close, shutdown, set_client, or_zero,
}
use xun.Sse.Server.Keeps.{IsWellFormed, Keeps-IsWellFormed, cancel-Keeps, send-Keeps}

-- A lookup behind a deletion.
behind :
    (b : Bool) (o : Option ℕ) (x : ℕ)
    → (if b then none else o) ≡ some x
    → (b ≡ false) × (o ≡ some x)
behind true o x h = cc
behind false o x h = (refl, h)

dropped :
    (b : Bool) (o n : Option ℕ)
    → (o ≡ none → n ≡ none)
    → (if b then none else o) ≡ none
    → (if b then none else n) ≡ none
dropped true o n f h = refl
dropped false o n f h = f h

drop_client-IsWellFormed :
    (s : Server) (id : Bytes) → IsWellFormed s → IsWellFormed (drop_client s id)
drop_client-IsWellFormed s id w =
    let found : (j : Bytes) (p : ℕ)
        → lookup j (drop_client s id).clients ≡ some p
        → (equal id j ≡ false) × (lookup j s.clients ≡ some p) =
      λ j p h.
        behind (equal id j) (lookup j s.clients) p (rw (lookup-delete id j s.clients) at h) in
    record {
      named = λ j p h. w.named j p (found j p h).1;
      numbered = λ j p h.
          rw (lookup-delete id j s.conns, (found j p h).0) (w.numbered j p (found j p h).1);
      made = λ j p h. w.made j p (found j p h).1;
      missing = λ j h. rw (lookup-delete id j s.conns) (
          dropped (equal id j) (lookup j s.clients) (lookup j s.conns) (w.missing j)
            (rw (lookup-delete id j s.clients) at h));
    }

-- The server with one client put under its ID.
record Puts (s s' : Server) (p : ℕ) (c : Client) : Type 0 where
  clients :
      (j : Bytes) → lookup j s'.clients ≡ (if equal c.id j then some p else lookup j s.clients)
  conns :
      (j : Bytes) → lookup j s'.conns ≡ (if equal c.id j then some c.conn_id else lookup j s.conns)
  store : s'.store ≡ set_client s.store p c
  other :
      (j : Bytes) (q : ℕ) → equal c.id j ≡ false → lookup j s.clients ≡ some q → (q == p) ≡ false
  made : p < s'.fresh
  more : s.fresh ≤ s'.fresh

-- What is then under an ID, by whether it is the client's.
under :
    (s s' : Server) (p : ℕ) (c : Client) (j : Bytes) (q : ℕ)
    → Puts s s' p c
    → lookup j s'.clients ≡ some q
    → ((equal c.id j ≡ true) × ((q ≡ p) × (s'.store q ≡ c)))
      ⊎ ((equal c.id j ≡ false) × ((lookup j s.clients ≡ some q) × (s'.store q ≡ s.store q)))
under s s' p c j q k h = elim (Bool-cases (equal c.id j)) [
  | inl e ↦
      let eq : p ≡ q = some_inj (rw (k.clients j, e) at h) in
      inl (e, (sym eq, subst (λ r. s'.store r ≡ c) eq (rw (k.store, ==_refl p) refl)))
  | inr e ↦
      let h' : lookup j s.clients ≡ some q = rw (k.clients j, e) at h in
      inr (e, (h', rw (k.store, k.other j q e h') refl))
]

Puts-IsWellFormed :
    (s s' : Server) (p : ℕ) (c : Client) → Puts s s' p c → IsWellFormed s → IsWellFormed s'
Puts-IsWellFormed s s' p c k w = record {
  named = λ j q h. elim (under s s' p c j q k h) [
    | inl (e, (a, b)) ↦ ap Client.id b ∙ (equal_iff c.id j).0 e
    | inr (e, (a, b)) ↦ ap Client.id b ∙ w.named j q a
  ];
  numbered = λ j q h. elim (under s s' p c j q k h) [
    | inl (e, (a, b)) ↦ rw (k.conns j, e, b) refl
    | inr (e, (a, b)) ↦ rw (k.conns j, e, b) (w.numbered j q a)
  ];
  made = λ j q h. elim (under s s' p c j q k h) [
    | inl (e, (a, b)) ↦ rw a k.made
    | inr (e, (a, b)) ↦ omega (arith, w.made j q a, k.more)
  ];
  missing = λ j h. elim (Bool-cases (equal c.id j)) [
    | inl e ↦ cc (rw (k.clients j, e) at h)
    | inr e ↦ rw (k.conns j, e) (w.missing j (rw (k.clients j, e) at h))
  ];
}

same_entry :
    (a j : Bytes) (p : ℕ) (m : Dict ℕ)
    → lookup a m ≡ some p
    → lookup j m ≡ (if equal a j then some p else lookup j m)
same_entry a j p m h = elim (Bool-cases (equal a j)) [
  | inl e ↦ rw e (subst (λ i. lookup i m ≡ some p) ((equal_iff a j).0 e) h)
  | inr e ↦ rw e refl
]

-- Under an ID that is not the client's stands another client.
elsewhere :
    (s : Server) (j : Bytes) (p q : ℕ)
    → IsWellFormed s
    → equal (s.store p).id j ≡ false
    → lookup j s.clients ≡ some q
    → (q == p) ≡ false
elsewhere s j p q w f h = elim (Bool-cases (q == p)) [
  | inl b ↦
      let e : (s.store p).id ≡ j =
        subst (λ r. (s.store r).id ≡ j) ((==_iff q p).0 b) (w.named j q h) in
      cc (rw (e, equal_refl j) at f)
  | inr b ↦ b
]

join-IsWellFormed :
    (s : Server) (id : Bytes) (sm now : ℕ) → IsWellFormed s → IsWellFormed (join s id sm now).server
unfolding join
join-IsWellFormed s id sm now w = elim (Option-cases (lookup id s.clients)) [
  | inl e ↦
      rw (e, join)
        (Puts-IsWellFormed s _ s.fresh
          (record { id = id; conn_id = 1; sm = sm; last_seen = now; cause = none })
          (record {
            clients = λ j. lookup-insert id j s.fresh s.clients;
            conns = λ j. lookup-insert id j 1 s.conns;
            store = refl;
            other = λ j q f h. ground (arith, w.made j q h);
            made = omega arith;
            more = omega arith;
          })
          w)
  | inr (p, e) ↦
      rw (e, join)
        (let n = suc (or_zero (lookup id s.conns)) in
          Puts-IsWellFormed s _ p (record (s.store p) { conn_id = n; sm = sm; last_seen = now })
            (record {
              clients = λ j. same_entry (s.store p).id j p s.clients (rw (w.named id p e) e);
              conns = λ j. rw (w.named id p e) (lookup-insert id j n s.conns);
              store = refl;
              other = λ j q f h. elsewhere s j p q w f h;
              made = w.made id p e;
              more = omega arith;
            })
            w)
]

sweep-IsWellFormed : (ps : List ℕ) (s : Server) → IsWellFormed s → IsWellFormed (sweep s ps)
unfolding sweep
sweep-IsWellFormed [] s w = w
sweep-IsWellFormed (p ∷ ps) s w =
    sweep-IsWellFormed ps (drop_client (cancel s p client_timeout) (s.store p).id) (
      drop_client-IsWellFormed (cancel s p client_timeout) (s.store p).id
        (Keeps-IsWellFormed s (cancel s p client_timeout) (cancel-Keeps s p client_timeout) w))

leave-IsWellFormed :
    (s : Server) (id : Bytes) (n : ℕ) → IsWellFormed s → IsWellFormed (leave s id n).0
unfolding leave
leave-IsWellFormed s id n w = elim (Option-cases (lookup id s.clients)) [
  | inl e ↦ rw (e, leave) w
  | inr (p, e) ↦ elim (Bool-cases ((s.store p).conn_id == n)) [
    | inl b ↦
        rw (e, b, leave)
          (Keeps-IsWellFormed (drop_client s id) (cancel (drop_client s id) p server_closed)
            (cancel-Keeps (drop_client s id) p server_closed) (drop_client-IsWellFormed s id w))
    | inr b ↦ rw (e, b, leave) w
  ]
]

-- The operations, in any interleaving. `sweeps` is the second section of a round of KeepAlive, with
-- the clients that the first one found at any time before.
pub data Step : Type 0 where
  joins : Bytes → ℕ → ℕ → Step
  leaves : Bytes → ℕ → Step
  sweeps : List ℕ → Step
  sends : ℕ → Bytes → Bool → ℕ → Step
  closes : ℕ → Step
  shuts_down : Step

unfoldable pub step : Server → Step → Server
unfolding join leave sweep send close shutdown
step s (joins id sm now) = (join s id sm now).server
step s (leaves id n) = (leave s id n).0
step s (sweeps ps) = sweep s ps
step s (sends p text fails now) = (send s p text fails now).0
step s (closes p) = close s p
step s shuts_down = shutdown s

unfoldable pub run : Server → List Step → Server
unfolding step
run s [] = s
run s (t ∷ ts) = run (step s t) ts

step-IsWellFormed : (s : Server) (t : Step) → IsWellFormed s → IsWellFormed (step s t)
unfolding step close shutdown
step-IsWellFormed s (joins id sm now) w = join-IsWellFormed s id sm now w
step-IsWellFormed s (leaves id n) w = leave-IsWellFormed s id n w
step-IsWellFormed s (sweeps ps) w = sweep-IsWellFormed ps s w
step-IsWellFormed s (sends p text fails now) w =
    Keeps-IsWellFormed s (send s p text fails now).0 (send-Keeps s p text fails now) w
step-IsWellFormed s (closes p) w =
    Keeps-IsWellFormed s (cancel s p server_closed) (cancel-Keeps s p server_closed) w
step-IsWellFormed s shuts_down w = record {
  named = λ id p h. cc;
  numbered = λ id p h. cc;
  made = λ id p h. cc;
  missing = λ id h. refl;
}

-- However joins, leaves, sends, closes, shutdowns and the sections of KeepAlive interleave: a client
-- in the map stands under its own ID, the number kept for an ID is that of its client's last
-- connection, and an ID without a client has no number.
pub run-IsWellFormed : (ts : List Step) (s : Server) → IsWellFormed s → IsWellFormed (run s ts)
unfolding run
run-IsWellFormed [] s w = w
run-IsWellFormed (t ∷ ts) s w = run-IsWellFormed ts (step s t) (step-IsWellFormed s t w)

pub new_server-IsWellFormed : (default asked : ℕ) → IsWellFormed (new_server default asked)
unfolding new_server lookup
new_server-IsWellFormed default asked = record {
  named = λ id p h. cc;
  numbered = λ id p h. cc;
  made = λ id p h. cc;
  missing = λ id h. refl;
}
