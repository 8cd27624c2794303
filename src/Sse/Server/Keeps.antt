-- ===== src/Sse/Server/Keeps.antt =====
-- ext/sse/server.go and client.go: operations that leave the maps, the IDs and the numbers alone.
use mathlib.Core.Path.{subst}
use xun.Base.{
  ℕ, Bool, ◌≡◌, refl, sym, ◌∙◌, ◌<◌, inl, inr, none, some, Bytes, lookup, ◌==◌, ==_iff, Bool-cases,
  Option-cases,
}
use xun.Sse.Server.Defs.{Cause, Client, Server, cause_of, cancel, send, set_client}

-- A client in the map stands under its ID, and the number of its last connection is the map's; an
-- ID without a client has no number.
pub record IsWellFormed (s : Server) : Type 0 where
  pub named : (id : Bytes) (p : ℕ) → lookup id s.clients ≡ some p → (s.store p).id ≡ id
  pub numbered :
      (id : Bytes) (p : ℕ)
      → lookup id s.clients ≡ some p
      → lookup id s.conns ≡ some (s.store p).conn_id
  pub made : (id : Bytes) (p : ℕ) → lookup id s.clients ≡ some p → p < s.fresh
  pub missing : (id : Bytes) → lookup id s.clients ≡ none → lookup id s.conns ≡ none

-- An operation that leaves the maps, the IDs and the numbers alone.
pub record Keeps (s s' : Server) : Type 0 where
  pub clients : s'.clients ≡ s.clients
  pub conns : s'.conns ≡ s.conns
  pub fresh : s'.fresh ≡ s.fresh
  pub id : (p : ℕ) → (s'.store p).id ≡ (s.store p).id
  pub conn_id : (p : ℕ) → (s'.store p).conn_id ≡ (s.store p).conn_id

pub Keeps-IsWellFormed : (s s' : Server) → Keeps s s' → IsWellFormed s → IsWellFormed s'
Keeps-IsWellFormed s s' k w = record {
  named = λ id p h. k.id p ∙ w.named id p (rw k.clients at h);
  numbered = λ id p h. rw (k.conns, k.conn_id p) (w.numbered id p (rw k.clients at h));
  made = λ id p h. rw k.fresh (w.made id p (rw k.clients at h));
  missing = λ id h. rw k.conns (w.missing id (rw k.clients at h));
}

-- A change of one client that keeps a field keeps it for all.
set_client-field :
    {A : Type 0} (f : Client → A) (store : ℕ → Client) (p q : ℕ) (c : Client)
    → f c ≡ f (store p)
    → f (set_client store p c q) ≡ f (store q)
set_client-field f store p q c h = elim (Bool-cases (q == p)) [
  | inl e ↦ rw e (subst (λ r. f c ≡ f (store r)) (sym ((==_iff q p).0 e)) h)
  | inr e ↦ rw e refl
]

pub same : (s : Server) → Keeps s s
same s = record { clients = refl; conns = refl; fresh = refl; id = λ q. refl; conn_id = λ q. refl }

pub cancel-Keeps : (s : Server) (p : ℕ) (why : Cause) → Keeps s (cancel s p why)
unfolding cancel
cancel-Keeps s p why = elim (Option-cases (cause_of s p)) [
  | inl e ↦
      rw (e, cancel)
        (record {
          clients = refl;
          conns = refl;
          fresh = refl;
          id = λ q.
              set_client-field Client.id s.store p q (record (s.store p) { cause = some why }) refl;
          conn_id = λ q.
              set_client-field Client.conn_id s.store p q (record (s.store p) { cause = some why })
                refl;
        })
  | inr (c, e) ↦ rw (e, cancel) (same s)
]

pub send-Keeps :
    (s : Server) (p : ℕ) (text : Bytes) (fails : Bool) (now : ℕ)
    → Keeps s (send s p text fails now).0
unfolding send
send-Keeps s p text fails now = elim (Option-cases (cause_of s p)) [
  | inr (c, e) ↦ rw (e, send) (same s)
  | inl e ↦ elim (Bool-cases fails) [
    | inl b ↦ rw (e, b, send) (same s)
    | inr b ↦
        rw (e, b, send)
          (record {
            clients = refl;
            conns = refl;
            fresh = refl;
            id = λ q.
                set_client-field Client.id s.store p q (record (s.store p) { last_seen = now })
                  refl;
            conn_id = λ q.
                set_client-field Client.conn_id s.store p q (record (s.store p) { last_seen = now })
                  refl;
          })
  ]
]
