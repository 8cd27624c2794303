-- ===== src/Proxy/Passed.antt =====
-- ext/proxyproto/conn.go: what a connection passes on.
use xun.Base.{
  List, ◌+◌, ℕ, suc, true, false, ◌≡◌, refl, sym, ap, ◌∙◌, inl, inr, Option, none, some, [], ◌∷◌,
  ◌++◌, Bytes, leb, length, take, drop, has_prefix, index_byte, take-append-drop, append_assoc,
  arith, Bool-cases, Option-cases,
}
use xun.Proxy.Defs.{Addr, Header, Read}
use xun.Proxy.V2.{read_command, read_v2_header}
use xun.Proxy.V1.{read_v1_header, v1_signature}
use xun.Proxy.Conn.{
  Conn, try_use_proxy, v2_signature, new_conn, load, remote_addr, local_addr, read,
}
use xun.Proxy.RoundTrip2.{
  address, Proxied, IsPrintable, header_of, print_v2, read_v2_header-print_v2,
}
use xun.Proxy.Ends.{EndsIn, whole, nothing, dropped, deeper, either, read_command-EndsIn}

take_plus : (xs ys : Bytes) (n : ℕ) → take (length xs + n) (xs ++ ys) ≡ xs ++ take n ys
take_plus [] ys n = ap (λ k. take k ys) zero_left
  where
    zero_left : 0 + n ≡ n
    zero_left = omega arith
take_plus (x ∷ xs) ys n =
    ap (λ k. take k (x ∷ xs ++ ys)) (suc_left) ∙ ap (◌∷◌ x) (take_plus xs ys n)
  where
    suc_left : suc (length xs) + n ≡ suc (length xs + n)
    suc_left = omega arith

module _ (resolve : Bytes → Bytes → Option Addr) where
  read_v1_header-EndsIn : (s : Bytes) → EndsIn s (read_v1_header resolve s).1
  unfolding read_v1_header
  read_v1_header-EndsIn s = elim (Option-cases (index_byte s b'\n')) [
    | inl e ↦ rw (e, read_v1_header) (nothing s)
    | inr (i, e) ↦ rw (e, read_v1_header) (dropped (suc i) s)
  ]

  -- Whatever arrives on a connection: what is left to be read once a header was looked for is an end
  -- of it, so that no byte is made up, repeated or reordered; and all of it is left, and no header
  -- found, if the first 13 bytes are too few or have neither version's signature.
  pub try_use_proxy-EndsIn :
      (s : Bytes)
      → EndsIn s (try_use_proxy resolve s).1
        × (has_prefix (take 13 s) v1_signature ≡ false
            → has_prefix (take 13 s) v2_signature ≡ false
            → try_use_proxy resolve s ≡ (none, s))
        × (leb 13 (length s) ≡ false → try_use_proxy resolve s ≡ (none, s))
  unfolding try_use_proxy read_v2_header
  try_use_proxy-EndsIn s = (
    either (leb 13 (length s)) s _ _
        (either (has_prefix (take 13 s) v1_signature) s _ _ (read_v1_header-EndsIn s) (
          either (has_prefix (take 13 s) v2_signature) s _ _
            (deeper 12 s (read_command (drop 12 s)).1 (read_command-EndsIn (drop 12 s))) (whole s)))
        (whole s),
    (λ a b. elim (Bool-cases (leb 13 (length s))) [
      | inl e ↦ rw (e, a, b, try_use_proxy) refl
      | inr e ↦ rw (e, try_use_proxy) refl
    ]),
    (λ e. rw (e, try_use_proxy) refl),
  )

  signed :
      (s : Bytes) (r : Read)
      → leb 13 (length s) ≡ true
      → has_prefix (take 13 s) v1_signature ≡ false
      → has_prefix (take 13 s) v2_signature ≡ true
      → read_v2_header s ≡ r
      → try_use_proxy resolve s ≡ r
  unfolding try_use_proxy
  signed s r a b c e = rw (a, b, c, try_use_proxy) e

  try_use_proxy-print_v2 :
      (h : Proxied) (rest : Bytes)
      → IsPrintable h
      → try_use_proxy resolve (print_v2 h ++ rest) ≡ (some (header_of h), rest)
  unfolding has_prefix
  try_use_proxy-print_v2 h rest k =
      signed (print_v2 h ++ rest) (some (header_of h), rest) (ground arith) refl refl
        (read_v2_header-print_v2 h rest k)

  load-is_loaded : (c : Conn) → (load resolve c).is_loaded ≡ true
  unfolding load
  load-is_loaded c = elim (Bool-cases c.is_loaded) [
    | inl e ↦ rw (e, load) refl
    | inr e ↦ rw (e, load) refl
  ]

  load_again : (c : Conn) → c.is_loaded ≡ true → load resolve c ≡ c
  unfolding load
  load_again c e = rw (e, load) refl

  -- What a caller does with a connection: it asks for an address, or reads.
  pub data Use : Type 0 where
    asks_local asks_remote : Use
    reads : ℕ → Use

  abbrev pub use_conn : Conn → Use → Conn × Bytes
  use_conn c asks_local = ((local_addr resolve c).0, [])
  use_conn c asks_remote = ((remote_addr resolve c).0, [])
  use_conn c (reads n) = read resolve c n

  -- Any number of such uses, and all that was read.
  abbrev pub use_all : Conn → List Use → Conn × Bytes
  use_all c [] = (c, [])
  use_all c (u ∷ us) = let (c', b) = use_conn c u in let (c'', bs) = use_all c' us in (c'', b ++ bs)

  -- The header of a connection, and what is left to be read of it.
  abbrev Holds : Header → Bytes → Conn → Type 0
  Holds h rest c = ((load resolve c).header ≡ some h) × ((load resolve c).unread ≡ rest)

  use_conn-Holds :
      (h : Header) (rest : Bytes) (c : Conn) (u : Use)
      → Holds h rest c
      → let (c', b) = use_conn c u in (left : Bytes) × (b ++ left ≡ rest) × Holds h left c'
  unfolding local_addr remote_addr read
  use_conn-Holds h rest c asks_local (a, b) =
      (rest, refl, rw (load_again (load resolve c) (load-is_loaded c)) (a, b))
  use_conn-Holds h rest c asks_remote (a, b) =
      (rest, refl, rw (load_again (load resolve c) (load-is_loaded c)) (a, b))
  use_conn-Holds h rest c (reads n) (a, b) =
      let c' = record (load resolve c) { unread = drop n (load resolve c).unread } in
      (
        drop n (load resolve c).unread,
        take-append-drop n (load resolve c).unread ∙ b,
        rw (load_again c' (load-is_loaded c)) (a, refl),
      )

  use_all-Holds :
      (h : Header) (rest : Bytes) (c : Conn) (us : List Use)
      → Holds h rest c
      → let (c', got) = use_all c us in (left : Bytes) × (got ++ left ≡ rest) × Holds h left c'
  use_all-Holds h rest c [] k = (rest, refl, k)
  use_all-Holds h rest c (u ∷ us) k =
      let (c', b) = use_conn c u in
      let (left, e, k') = use_conn-Holds h rest c u k in
      let (c'', bs) = use_all c' us in
      let (left', e', k'') = use_all-Holds h left c' us k' in
      (left', append_assoc b bs left' ∙ ap (◌++◌ b) e' ∙ e, k'')

  Holds-answers :
      (h : Header) (rest : Bytes) (c : Conn) (n : ℕ)
      → Holds h rest c
      → ((remote_addr resolve c).1 ≡ h.remote)
        × ((local_addr resolve c).1 ≡ h.local)
        × ((read resolve c n).1 ≡ take n rest)
  unfolding remote_addr local_addr read
  Holds-answers h rest c n (a, b) =
      let c' = load resolve c in
      (
        ap (λ (o : Option Header). elim o [ some g ↦ g.remote | none ↦ some c'.remote ]) a,
        ap (λ (o : Option Header). elim o [ some g ↦ g.local | none ↦ some c'.local ]) a,
        ap (take n) b,
      )

  new_conn-Holds :
      (h : Header) (below_local below_remote : Addr) (s rest : Bytes)
      → try_use_proxy resolve s ≡ (some h, rest)
      → Holds h rest (new_conn below_local below_remote s)
  unfolding load new_conn
  new_conn-Holds h below_local below_remote s rest e = rw (e, load) (refl, refl)

  -- A connection that begins with a header of version 2 as the protocol lays it out, with the
  -- command PROXY: after any number of calls of RemoteAddr, LocalAddr and Read, in any order,
  -- RemoteAddr gives the protocol's source address, LocalAddr its destination address, neither of
  -- them that of the connection below, and what was read, followed by the next bytes that Read gives,
  -- is the beginning of what stands behind the header.
  pub load-print_v2 :
      (h : Proxied) (below_local below_remote : Addr) (rest : Bytes) (us : List Use) (n : ℕ)
      → IsPrintable h
      → let (c, got) = use_all (new_conn below_local below_remote (print_v2 h ++ rest)) us in
        ((remote_addr resolve c).1 ≡ address h.protocol h.remote h.remote_port)
        × ((local_addr resolve c).1 ≡ address h.protocol h.local h.local_port)
        × (got ++ (read resolve c n).1 ≡ take (length got + n) rest)
  load-print_v2 h below_local below_remote rest us n k =
      let c0 = new_conn below_local below_remote (print_v2 h ++ rest) in
      let (c, got) = use_all c0 us in
      let (left, e, holds) = use_all-Holds (header_of h) rest c0 us (
        new_conn-Holds (header_of h) below_local below_remote (print_v2 h ++ rest) rest
          (try_use_proxy-print_v2 h rest k)) in
      let (r, l, m) = Holds-answers (header_of h) left c n holds in
      (r, l, ap (◌++◌ got) m ∙ sym (take_plus got left n) ∙ ap (take (length got + n)) e)
