-- ===== src/Proxy/RoundTrip2.antt =====
-- ext/proxyproto/header.go: a printed header of version 2 is read back.
use mathlib.Core.Path.{subst}
use xun.Base.{
  Option, none, zero, ℕ, suc, ◌+◌, ◌*◌, ◌/◌, ◌%◌, ◌≤◌, ◌<◌, true, false, ◌&&◌, ◌≡◌, refl, sym, ap,
  ◌∙◌, ◌⊎◌, inl, inr, some, [], ◌∷◌, ◌++◌, Bytes, ◌==◌, leb, if◌then◌else◌, length, length-append,
  take, drop, take-length_append, drop-length_append, arith,
}
use xun.Proxy.Defs.{Header, Read, Addr, tcp, udp}
use xun.Proxy.V2.{
  to_addr, uint16, payload_header, read_payload, read_length, validate_length, read_protocol,
  read_command, read_v2_header, is_supported,
}

abbrev pub big_endian : ℕ → Bytes
big_endian n = (n / 256) ∷ (n % 256) ∷ []

-- A header as the protocol's document lays it out: the addresses of `n` bytes and the ports.
pub record Proxied : Type 0 where
  pub command : ℕ
  pub protocol : ℕ
  pub remote : Bytes
  pub local : Bytes
  pub remote_port : ℕ
  pub local_port : ℕ
  pub tlvs : Bytes

abbrev pub payload : Proxied → Bytes
payload h =
    h.remote ++ (h.local ++ (big_endian h.remote_port ++ (big_endian h.local_port ++ h.tlvs)))

-- The twelve bytes that the protocol begins with.
abbrev pub signature : Bytes
signature = 13 ∷ 10 ∷ 13 ∷ 10 ∷ 0 ∷ 13 ∷ 10 ∷ 81 ∷ 85 ∷ 73 ∷ 84 ∷ 10 ∷ []

abbrev pub print_v2 : Proxied → Bytes
print_v2 h = signature ++ h.command ∷ h.protocol ∷ (big_endian (length (payload h)) ++ payload h)

-- The bytes of an address of a family.
abbrev pub address_size : ℕ → ℕ
address_size ap = if ap / 16 == 1 then 4 else 16

pub record IsPrintable (h : Proxied) : Type 0 where
  pub command : h.command ≡ 0x21
  pub family : (h.protocol / 16 ≡ 1) ⊎ (h.protocol / 16 ≡ 2)
  pub remote : length h.remote ≡ address_size h.protocol
  pub local : length h.local ≡ address_size h.protocol
  pub remote_port : h.remote_port < 65536
  pub local_port : h.local_port < 65536
  pub size : length (payload h) ≤ 4096

-- The address of a protocol: 1 is a stream and 2 a datagram in its lower half.
abbrev pub address : ℕ → Bytes → ℕ → Option Addr
address ap ip port =
    if ap % 16 == 1 then some (tcp ip port) else if ap % 16 == 2 then some (udp ip port) else none

abbrev pub header_of : Proxied → Header
header_of h = record {
  local = address h.protocol h.local h.local_port;
  remote = address h.protocol h.remote h.remote_port;
  version = 2;
  command = h.command;
  protocol = h.protocol;
  raw_tlvs = h.tlvs;
}

take_at : (xs ys : Bytes) (n : ℕ) → length xs ≡ n → take n (xs ++ ys) ≡ xs
take_at xs ys n h = subst (λ k. take k (xs ++ ys) ≡ xs) h (take-length_append xs ys)

drop_at : (xs ys : Bytes) (n : ℕ) → length xs ≡ n → drop n (xs ++ ys) ≡ ys
drop_at xs ys n h = subst (λ k. drop k (xs ++ ys) ≡ ys) h (drop-length_append xs ys)

drop_nil : (n : ℕ) → drop {A = ℕ} n [] ≡ []
drop_nil zero = refl
drop_nil (suc n) = refl

zero_plus : (m : ℕ) → 0 + m ≡ m
zero_plus m = omega arith

suc_plus : (n m : ℕ) → suc n + m ≡ suc (n + m)
suc_plus n m = omega arith

drop_plus : (n m : ℕ) (xs : Bytes) → drop (n + m) xs ≡ drop m (drop n xs)
drop_plus zero m xs = ap (λ k. drop k xs) (zero_plus m)
drop_plus (suc n) m [] = drop_nil (suc n + m) ∙ sym (drop_nil m)
drop_plus (suc n) m (x ∷ xs) = ap (λ k. drop k (x ∷ xs)) (suc_plus n m) ∙ drop_plus n m xs

uint16-big_endian : (n : ℕ) (s : Bytes) → uint16 (big_endian n ++ s) ≡ n
uint16-big_endian n s = omega arith

-- A payload's header, by its parts.
header_from :
    (c ap n : ℕ) (p remote local tlvs : Bytes) (remote_port local_port : ℕ)
    → take n p ≡ remote
    → take n (drop n p) ≡ local
    → uint16 (drop (n + n) p) ≡ remote_port
    → uint16 (drop (n + n + 2) p) ≡ local_port
    → drop (n + n + 4) p ≡ tlvs
    → payload_header c ap n p ≡ record {
      local = to_addr ap local local_port;
      remote = to_addr ap remote remote_port;
      version = 2;
      command = c;
      protocol = ap;
      raw_tlvs = tlvs;
    }
unfolding payload_header
header_from c ap n p remote local tlvs remote_port local_port a b d e f = rw (a, b, d, e, f) refl

payload_header-payload :
    (h : Proxied) (n : ℕ)
    → length h.remote ≡ n
    → length h.local ≡ n
    → payload_header h.command h.protocol n (payload h) ≡ header_of h
unfolding to_addr
payload_header-payload h n r l =
    let ports = big_endian h.remote_port ++ (big_endian h.local_port ++ h.tlvs) in
    let d1 : drop n (payload h) ≡ h.local ++ ports = drop_at h.remote (h.local ++ ports) n r in
    let d2 : drop (n + n) (payload h) ≡ ports =
      drop_plus n n (payload h) ∙ ap (drop n) d1 ∙ drop_at h.local ports n l in
    header_from h.command h.protocol n (payload h) h.remote h.local h.tlvs h.remote_port
      h.local_port (take_at h.remote (h.local ++ ports) n r)
      (ap (take n) d1 ∙ take_at h.local ports n l)
      (ap uint16 d2 ∙ uint16-big_endian h.remote_port (big_endian h.local_port ++ h.tlvs))
      (ap uint16 (drop_plus (n + n) 2 (payload h) ∙ ap (drop 2) d2)
        ∙ uint16-big_endian h.local_port h.tlvs)
      (drop_plus (n + n) 4 (payload h) ∙ ap (drop 4) d2)

-- The payload is taken whole and nothing behind it, for an address of each size.
fits :
    (p rest : Bytes)
    → length p ≤ 4096
    → (leb (length p) 4096 && leb (length p) (length (p ++ rest))) ≡ true
fits p rest h = ground (arith, h, length-append p rest)

read_ipv4 :
    (c ap : ℕ) (p rest : Bytes)
    → length p ≤ 4096
    → ap / 16 ≡ 1
    → read_payload c ap (length p) (p ++ rest) ≡ (some (payload_header c ap 4 p), rest)
unfolding read_payload
read_ipv4 c ap p rest h f =
    rw (fits p rest h, f, read_payload)
      (rw (take-length_append p rest, drop-length_append p rest) refl)

read_ipv6 :
    (c ap : ℕ) (p rest : Bytes)
    → length p ≤ 4096
    → ap / 16 ≡ 2
    → read_payload c ap (length p) (p ++ rest) ≡ (some (payload_header c ap 16 p), rest)
unfolding read_payload
read_ipv6 c ap p rest h f =
    rw (fits p rest h, f, read_payload)
      (rw (take-length_append p rest, drop-length_append p rest) refl)

read_payload-payload :
    (h : Proxied) (rest : Bytes)
    → IsPrintable h
    → read_payload h.command h.protocol (length (payload h)) (payload h ++ rest)
      ≡ (some (header_of h), rest)
read_payload-payload h rest k = elim k.family [
  | inl f ↦
      read_ipv4 h.command h.protocol (payload h) rest k.size f
      ∙ ap (λ x. (some x, rest)) (payload_header-payload h 4 (rw f at k.remote) (rw f at k.local))
  | inr f ↦
      read_ipv6 h.command h.protocol (payload h) rest k.size f
      ∙ ap (λ x. (some x, rest)) (payload_header-payload h 16 (rw f at k.remote) (rw f at k.local))
]

-- The length of a payload is valid for its protocol, and not zero.
length-payload :
    (h : Proxied) → length (payload h) ≡ length h.remote + length h.local + 4 + length h.tlvs
length-payload h = ground (
  arith,
  length-append h.remote
      (h.local ++ (big_endian h.remote_port ++ (big_endian h.local_port ++ h.tlvs))),
  length-append h.local (big_endian h.remote_port ++ (big_endian h.local_port ++ h.tlvs)),
)

valid4 : (ap n : ℕ) → ap / 16 ≡ 1 → 12 ≤ n → validate_length ap n ≡ true
unfolding validate_length
valid4 ap n f h = rw f (ground arith)

valid6 : (ap n : ℕ) → ap / 16 ≡ 2 → 36 ≤ n → validate_length ap n ≡ true
unfolding validate_length
valid6 ap n f h = rw f (ground arith)

read_length-valid :
    (c ap n : ℕ) (s : Bytes) (r : Read)
    → validate_length ap n ≡ true
    → 1 ≤ n
    → read_payload c ap n s ≡ r
    → read_length c ap (big_endian n ++ s) ≡ r
unfolding read_length
read_length-valid c ap n s r v h e =
    let again : 256 * (n / 256) + n % 256 ≡ n = omega arith in
    let full : (n == 0) ≡ false = ground (arith, h) in rw (again, v, full, read_length) e

read_length-payload :
    (h : Proxied) (rest : Bytes)
    → IsPrintable h
    → read_length h.command h.protocol (big_endian (length (payload h)) ++ (payload h ++ rest))
      ≡ (some (header_of h), rest)
read_length-payload h rest k = elim k.family [
  | inl f ↦
      let r : length h.remote ≡ 4 = rw f at k.remote in
      let l : length h.local ≡ 4 = rw f at k.local in
      read_length-valid h.command h.protocol (length (payload h)) (payload h ++ rest)
        (some (header_of h), rest)
        (valid4 h.protocol (length (payload h)) f (omega (arith, length-payload h, r, l)))
        (omega (arith, length-payload h)) (read_payload-payload h rest k)
  | inr f ↦
      let r : length h.remote ≡ 16 = rw f at k.remote in
      let l : length h.local ≡ 16 = rw f at k.local in
      read_length-valid h.command h.protocol (length (payload h)) (payload h ++ rest)
        (some (header_of h), rest)
        (valid6 h.protocol (length (payload h)) f (omega (arith, length-payload h, r, l)))
        (omega (arith, length-payload h)) (read_payload-payload h rest k)
]

-- A header of version 2 with the command PROXY that is laid out as the protocol says, with addresses
-- of IPv4 or IPv6 and a payload of 4096 bytes at most, is read as exactly its command, protocol,
-- addresses, ports and TLVs: the protocol's source address becomes RemoteAddr and its destination
-- address LocalAddr. What follows it on the connection is left to be read, whole.
pub read_v2_header-print_v2 :
    (h : Proxied) (rest : Bytes)
    → IsPrintable h
    → read_v2_header (print_v2 h ++ rest) ≡ (some (header_of h), rest)
unfolding read_v2_header read_command read_protocol
read_v2_header-print_v2 h rest k =
    let supported : is_supported h.command ≡ true = rw k.command refl in
    rw supported (read_length-payload h rest k)
