-- ===== src/Sse/Server/Defs.antt =====
-- ext/sse/server.go, client.go, streamer.go and option.go: the state and its operations.
-- A *Client is a number into a store, since a handler and the server share it. Each operation takes
-- the time that its call of time.Now gives; a locked section is one operation, so that the two
-- sections of a round of KeepAlive are two. Join reads the connection's number once more behind its
-- lock, where a concurrent Join may have raised it: the number here is the one of its locked section.
use xun.Base.{
  ℕ, zero, suc, ◌+◌, ◌/◌, Bool, true, false, Option, none, some, List, [], ◌∷◌, ◌++◌, Bytes, Dict,
  lookup, insert, delete, ◌==◌, ltb, if◌then◌else◌,
}

-- ErrServerClosed and ErrClientTimeout
pub data Cause : Type 0 where
  server_closed client_timeout : Cause

-- `sm` is the streamer, by a number; `cause` is the client context's own cause.
pub record Client : Type 0 where
  pub id : Bytes
  pub conn_id : ℕ
  pub sm : ℕ
  pub last_seen : ℕ
  pub cause : Option Cause

-- `cause` is the cause of the server's context. `sent` holds what was written to streamers, and
-- `fresh` counts the clients made.
pub record Server : Type 0 where
  pub clients : Dict ℕ
  pub conns : Dict ℕ
  pub store : ℕ → Client
  pub fresh : ℕ
  pub cause : Option Cause
  pub timeout : ℕ
  pub sent : List (ℕ × Bytes)

abbrev pub set_client : (ℕ → Client) → ℕ → Client → ℕ → Client
set_client store p c q = if q == p then c else store q

abbrev no_client : Client
no_client = record { id = []; conn_id = 0; sm = 0; last_seen = 0; cause = none }

-- WithClientTimeout: 0 keeps the timeout that is there.
abbrev pub timeout_or : ℕ → ℕ → ℕ
timeout_or zero default = default
timeout_or (suc d) default = suc d

-- New, with the default timeout and one that is asked for
unfoldable pub new_server : (default asked : ℕ) → Server
new_server default asked = record {
  clients = [];
  conns = [];
  store = λ p. no_client;
  fresh = 0;
  cause = none;
  timeout = timeout_or asked default;
  sent = [];
}

-- The cause of a client's context, which is a child of the server's.
abbrev pub cause_of : Server → ℕ → Option Cause
cause_of s p = elim (s.store p).cause [ some c ↦ some c | none ↦ s.cause ]

-- A client's cancel function: the first cause stays.
unfoldable pub cancel : Server → ℕ → Cause → Server
cancel s p why = elim (cause_of s p) [
  | some c ↦ s
  | none ↦ record s { store = set_client s.store p (record (s.store p) { cause = some why }) }
]

abbrev pub or_zero : Option ℕ → ℕ
or_zero none = 0
or_zero (some n) = n

-- What Join returns: the client, the number of its connection, and whether it is new.
pub record Joined : Type 0 where
  pub server : Server
  pub client : ℕ
  pub conn_id : ℕ
  pub is_new : Bool

abbrev pub join_new : Server → Bytes → ℕ → ℕ → Joined
join_new s id sm now = record {
  server = record s {
    clients = insert id s.fresh s.clients;
    conns = insert id 1 s.conns;
    store =
        set_client s.store s.fresh
          (record { id = id; conn_id = 1; sm = sm; last_seen = now; cause = none });
    fresh = suc s.fresh;
  };
  client = s.fresh;
  conn_id = 1;
  is_new = true;
}

abbrev pub join_again : Server → Bytes → ℕ → ℕ → ℕ → Joined
join_again s id p sm now =
    let n = suc (or_zero (lookup id s.conns)) in
    record {
      server = record s {
        conns = insert id n s.conns;
        store = set_client s.store p (record (s.store p) { conn_id = n; sm = sm; last_seen = now });
      };
      client = p;
      conn_id = n;
      is_new = false;
    }

-- Join, once NewStreamer has taken the response writer; a writer that it refuses changes nothing.
unfoldable pub join : Server → Bytes → ℕ → ℕ → Joined
unfolding lookup insert
join s id sm now = elim (lookup id s.clients) [
  | none ↦ join_new s id sm now
  | some p ↦ join_again s id p sm now
]

abbrev pub drop_client : Server → Bytes → Server
drop_client s id = record s { clients = delete id s.clients; conns = delete id s.conns }

-- Leave
unfoldable pub leave : Server → Bytes → ℕ → Server × Bool
unfolding lookup delete cancel
leave s id conn_id = elim (lookup id s.clients) [
  | none ↦ (s, true)
  | some p ↦
      if (s.store p).conn_id == conn_id
      then (cancel (drop_client s id) p server_closed, true)
      else (s, false)
]

-- Get: nil is `none`.
unfoldable pub get : Server → Bytes → Option ℕ
unfolding lookup
get s id = lookup id s.clients

-- The first locked section of a round of KeepAlive: the clients that have timed out, and those to
-- be pinged.
abbrev pub is_dead : Server → ℕ → ℕ → Bool
is_dead s now p = ltb ((s.store p).last_seen + s.timeout) now

abbrev pub is_idle : Server → ℕ → ℕ → Bool
is_idle s now p = ltb ((s.store p).last_seen + s.timeout / 2) now

unfoldable pub scan : Server → ℕ → Dict ℕ → List ℕ × List ℕ
scan s now [] = ([], [])
scan s now ((id, p) ∷ m) =
    let (dead, idle) = scan s now m in
    if is_dead s now p
    then (p ∷ dead, idle)
    else if is_idle s now p
    then (dead, p ∷ idle)
    else (dead, idle)

-- The second locked section: the clients found dead are cancelled and taken out by their ID.
unfoldable pub sweep : Server → List ℕ → Server
unfolding cancel delete
sweep s [] = s
sweep s (p ∷ ps) = sweep (drop_client (cancel s p client_timeout) (s.store p).id) ps

-- A call of KeepAlive up to the end of its first round, which no other call interrupts; pings are
-- left aside. Without a timeout, and once the server's context is done, the call returns with no
-- round; the caller's own context is not done here.
unfoldable pub keep_alive : Server → ℕ → Server
unfolding scan sweep
keep_alive s now = elim s.cause [
  | some c ↦ s
  | none ↦ if s.timeout == 0 then s else sweep s (scan s now s.clients).0
]

-- Send of a client, of a text whose writing may fail: `none` is no error.
unfoldable pub send :
    Server → ℕ → Bytes → (fails : Bool) → ℕ → Server × Option (Bytes × Option Cause)
send s p text fails now = elim (cause_of s p) [
  | some c ↦ (s, some ((s.store p).id, some c))
  | none ↦ if fails then (s, some ((s.store p).id, none)) else (
    record s {
      store = set_client s.store p (record (s.store p) { last_seen = now });
      sent = s.sent ++ ((s.store p).sm, text) ∷ [];
    },
    none,
  )
]

-- Close of a client
unfoldable pub close : Server → ℕ → Server
unfolding cancel
close s p = cancel s p server_closed

abbrev pub first_cause : Option Cause → Cause → Option Cause
first_cause (some c) why = some c
first_cause none why = some why

-- Shutdown
unfoldable pub shutdown : Server → Server
shutdown s = record s { clients = []; conns = []; cause = first_cause s.cause server_closed }
