-- ===== src/Proxy/V2.antt =====
-- ext/proxyproto/header.go and helper.go: version 2 of the header.
use xun.Base.{
  ℕ, ◌+◌, ◌*◌, ◌/◌, ◌%◌, Bool, false, ◌&&◌, ◌||◌, Option, none, some, [], ◌∷◌, Bytes, ◌==◌, leb,
  if◌then◌else◌, length, take, drop,
}
use xun.Proxy.Defs.{Addr, tcp, udp, Header, Read}

-- The methods of Protocol
abbrev pub is_ipv4 : ℕ → Bool
is_ipv4 ap = ap / 16 == 1

abbrev pub is_ipv6 : ℕ → Bool
is_ipv6 ap = ap / 16 == 2

abbrev pub is_unix : ℕ → Bool
is_unix ap = ap / 16 == 3

abbrev pub is_stream : ℕ → Bool
is_stream ap = ap % 16 == 1

abbrev pub is_datagram : ℕ → Bool
is_datagram ap = ap % 16 == 2

abbrev pub is_unspec : ℕ → Bool
is_unspec ap = (ap / 16 == 0) || (ap % 16 == 0)

-- supportedCommand: LOCAL and PROXY
abbrev pub is_supported : ℕ → Bool
is_supported c = (c == 0x20) || (c == 0x21)

-- validateLength
unfoldable pub validate_length : ℕ → ℕ → Bool
validate_length ap len =
    if is_ipv4 ap
    then leb 12 len
    else if is_ipv6 ap
    then leb 36 len
    else if is_unix ap
    then leb 216 len
    else if is_unspec ap
    then leb 0 len
    else false

-- toAddr
unfoldable pub to_addr : ℕ → Bytes → ℕ → Option Addr
to_addr ap ip port =
    if is_stream ap then some (tcp ip port) else if is_datagram ap then some (udp ip port) else none

-- A big-endian uint16
abbrev pub uint16 : Bytes → ℕ
uint16 (hi ∷ lo ∷ s) = 256 * hi + lo
uint16 _ = 0

-- The addresses, each of `n` bytes, and the ports of a payload, and what is behind them.
unfoldable pub payload_header : ℕ → ℕ → ℕ → Bytes → Header
unfolding to_addr
payload_header command ap n payload = record {
  remote = to_addr ap (take n payload) (uint16 (drop (n + n) payload));
  local = to_addr ap (take n (drop n payload)) (uint16 (drop (n + n + 2) payload));
  version = 2;
  command = command;
  protocol = ap;
  raw_tlvs = drop (n + n + 4) payload;
}

-- readV2Header from the payload on, of a length that is valid and not zero.
unfoldable pub read_payload : ℕ → ℕ → ℕ → Bytes → Read
unfolding payload_header
read_payload command ap len s =
    if leb len 4096 && leb len (length s)
    then if is_ipv4 ap
      then (some (payload_header command ap 4 (take len s)), drop len s)
      else if is_ipv6 ap
      then (some (payload_header command ap 16 (take len s)), drop len s)
      else (none, s)
    else (none, s)

unfoldable pub read_length : ℕ → ℕ → Bytes → Read
unfolding read_payload validate_length
read_length command ap [] = (none, [])
read_length command ap (hi ∷ []) = (none, [])
read_length command ap (hi ∷ lo ∷ s) =
    let len = uint16 (hi ∷ lo ∷ []) in
    if validate_length ap len
    then if len == 0 then (none, s) else read_payload command ap len s
    else (none, s)

unfoldable pub read_protocol : ℕ → Bytes → Read
unfolding read_length
read_protocol command [] = (none, [])
read_protocol command (ap ∷ s) = read_length command ap s

unfoldable pub read_command : Bytes → Read
unfolding read_protocol
read_command [] = (none, [])
read_command (command ∷ s) = if is_supported command then read_protocol command s else (none, s)

-- readV2Header: the signature is skipped byte by byte, as far as there are bytes.
unfoldable pub read_v2_header : Bytes → Read
unfolding read_command
read_v2_header s = read_command (drop 12 s)
