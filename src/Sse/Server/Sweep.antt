-- ===== src/Sse/Server/Sweep.antt =====
-- ext/sse/server.go: KeepAlive.
use mathlib.Core.Path.{subst}
use xun.Base.{
  ap, Option-cases, ◌≢◌, ℕ, Bool, true, false, ◌||◌, ◌≡◌, refl, ◌∙◌, Option, none, List, [], ◌∷◌,
  Bytes, lookup, lookup-delete, equal, equal_iff, equal_refl, Bool-cases, Option, some, Dict,
  Distinct, inl, inr, if◌then◌else◌, ◌↔◌, ◌+◌, ◌≤◌, sym, ◌⊎◌, arith, some_inj, ◌==◌,
}
use xun.Sse.Server.Defs.{
  Cause, scan, keep_alive, is_dead, is_idle, client_timeout, Server, cancel, drop_client, sweep,
}
use xun.Sse.Server.Keeps.{IsWellFormed, cancel-Keeps}

-- Whether one of the clients has the ID.
abbrev pub among : Server → Bytes → List ℕ → Bool
among s id [] = false
among s id (p ∷ ps) = equal (s.store p).id id || among s id ps

among-Keeps :
    (s s' : Server) (id : Bytes) (ps : List ℕ)
    → ((p : ℕ) → (s'.store p).id ≡ (s.store p).id)
    → among s' id ps ≡ among s id ps
among-Keeps s s' id [] k = refl
among-Keeps s s' id (p ∷ ps) k = rw (k p, among-Keeps s s' id ps k) refl

if_or :
    (a b : Bool) (o : Option ℕ)
    → (if b then none else (if a then none else o)) ≡ (if a || b then none else o)
if_or true true o = refl
if_or true false o = refl
if_or false b o = refl

-- A sweep takes out exactly the IDs of the clients that it is given, whoever has joined under them
-- in the meantime.
pub lookup-sweep :
    (ps : List ℕ) (s : Server) (id : Bytes)
    → lookup id (sweep s ps).clients ≡ (if among s id ps then none else lookup id s.clients)
unfolding sweep
lookup-sweep [] s id = refl
lookup-sweep (p ∷ ps) s id =
    let k = cancel-Keeps s p client_timeout in
    lookup-sweep ps (drop_client (cancel s p client_timeout) (s.store p).id) id
    ∙ rw
        (
          among-Keeps s (cancel s p client_timeout) id ps k.id,
          lookup-delete (s.store p).id id (cancel s p client_timeout).clients,
          k.clients,
        )
        (if_or (equal (s.store p).id id) (among s id ps) (lookup id s.clients))

-- A client under an ID that has timed out.
abbrev pub expired : Server → ℕ → Option ℕ → Bool
expired s now none = false
expired s now (some p) = is_dead s now p

-- Each entry of a map holds a client of that ID.
abbrev Names : Server → Dict ℕ → Type 0
Names s m = (j : Bytes) (q : ℕ) → lookup j m ≡ some q → (s.store q).id ≡ j

Names-tail :
    (s : Server) (j : Bytes) (p : ℕ) (m : Dict ℕ)
    → lookup j m ≡ none
    → Names s ((j, p) ∷ m)
    → Names s m
unfolding lookup
Names-tail s j p m d k i q h = elim (Bool-cases (equal j i)) [
  | inl e ↦
      let d' : lookup i m ≡ none = subst (λ r. lookup r m ≡ none) ((equal_iff j i).0 e) d in cc
  | inr e ↦ k i q (rw e h)
]

-- One entry of the map, by whether its client has timed out.
dead_entry :
    (s : Server) (now : ℕ) (id j : Bytes) (p : ℕ) (m : Dict ℕ) (rest : List ℕ)
    → lookup j m ≡ none
    → (s.store p).id ≡ j
    → among s id rest ≡ expired s now (lookup id m)
    → (is_dead s now p ≡ true → among s id (p ∷ rest) ≡ expired s now (lookup id ((j, p) ∷ m)))
      × (is_dead s now p ≡ false → among s id rest ≡ expired s now (lookup id ((j, p) ∷ m)))
unfolding lookup
dead_entry s now id j p m rest a here h = elim (Bool-cases (equal j id)) [
  | inl e ↦
      let a' : lookup id m ≡ none = subst (λ r. lookup r m ≡ none) ((equal_iff j id).0 e) a in
      ((λ d. rw (here, e, d) refl), (λ d. rw (e, d) (h ∙ rw a' refl)))
  | inr e ↦ ((λ d. rw (here, e) h), (λ d. rw e h))
]

among-scan :
    (s : Server) (now : ℕ) (id : Bytes) (m : Dict ℕ)
    → Distinct m
    → Names s m
    → among s id (scan s now m).0 ≡ expired s now (lookup id m)
unfolding scan lookup
among-scan s now id [] d k = refl
among-scan s now id ((j, p) ∷ m) (a, d) k =
    let rest = among-scan s now id m d (Names-tail s j p m a k) in
    let here : (s.store p).id ≡ j = k j p (rw (equal_refl j) refl) in
    let (dead, alive) = dead_entry s now id j p m (scan s now m).0 a here rest in
    elim (Bool-cases (is_dead s now p)) [
      | inl e ↦ rw e (dead e)
      | inr e ↦ elim (Bool-cases (is_idle s now p)) [
        | inl f ↦ rw (e, f) (alive e)
        | inr f ↦ rw (e, f) (alive e)
      ]
    ]

kept :
    (s : Server) (now p : ℕ) (o : Option ℕ)
    → ((if expired s now o then none else o) ≡ some p)
      ↔ ((o ≡ some p) × (now ≤ (s.store p).last_seen + s.timeout))
kept s now p none = ((λ h. cc), (λ h. cc h.0))
kept s now p (some q) = elim (Bool-cases (is_dead s now q)) [
  | inl e ↦ (
    (λ h. cc (rw e at h)),
    (λ (h, k). ground (arith, k, subst (λ r. is_dead s now r ≡ true) (some_inj h) e)),
  )
  | inr e ↦ (
    (λ h.
        let h' : some q ≡ some p = rw e at h in
        (h', ground (arith, subst (λ r. is_dead s now r ≡ false) (some_inj h') e))),
    (λ (h, k). rw e h),
  )
]

-- A round on a running server, by whether a timeout is set.
running_lem :
    (s : Server) (now : ℕ) (id : Bytes) (p : ℕ)
    → IsWellFormed s
    → Distinct s.clients
    → (lookup id (if s.timeout == 0 then s else sweep s (scan s now s.clients).0).clients ≡ some p)
      ↔ ((lookup id s.clients ≡ some p)
          × ((s.timeout ≡ 0) ⊎ (now ≤ (s.store p).last_seen + s.timeout)))
running_lem s now id p w d = elim (Bool-cases (s.timeout == 0)) [
  | inl e ↦ rw e ((λ h. (h, inl (ground (arith, e)))), (λ h. h.0))
  | inr e ↦
      let swept : lookup id (sweep s (scan s now s.clients).0).clients
          ≡ (if expired s now (lookup id s.clients) then none else lookup id s.clients) =
        lookup-sweep (scan s now s.clients).0 s id
        ∙ rw (among-scan s now id s.clients d w.named) refl in
      let (a, b) = kept s now p (lookup id s.clients) in
      rw e (
        (λ h. let (l, k) = a (sym swept ∙ h) in (l, inr k)),
        (λ (l, k). elim k [ inl z ↦ ground (arith, z, e) | inr n ↦ swept ∙ b (l, n) ]),
      )
]

-- A call of KeepAlive on a server that was not shut down, up to the end of a round that no other
-- call interrupts, leaves a client in the map under its ID exactly when it was there and no timeout
-- is set, or when it was there and something was sent to it, or it joined, no longer ago than the
-- timeout. All other clients are taken out. On a server that was shut down the call changes
-- nothing. The server is well-formed and its map of clients has one entry for each ID.
pub keep_alive_lem :
    (s : Server) (now : ℕ) (id : Bytes) (p : ℕ)
    → IsWellFormed s
    → Distinct s.clients
    → (s.cause ≡ none
        → (lookup id (keep_alive s now).clients ≡ some p) ↔ (
            (lookup id s.clients ≡ some p)
            × ((s.timeout ≡ 0) ⊎ (now ≤ (s.store p).last_seen + s.timeout))))
      × (s.cause ≢ none → keep_alive s now ≡ s)
unfolding keep_alive
keep_alive_lem s now id p w d = (
  (λ e. rw (e, keep_alive) (running_lem s now id p w d)),
  (λ ne. elim (Option-cases s.cause) [
    | inl e ↦ absurd (ne e)
    | inr (c, e) ↦
        ap
          (λ (o : Option Cause). elim o [
            | some c ↦ s
            | none ↦ if s.timeout == 0 then s else sweep s (scan s now s.clients).0
          ])
          e
  ]),
)
