-- ===== src/Proxy/Defs.antt =====
-- ext/proxyproto/header.go, helper.go and conn.go: reading a header from a connection.
-- A connection is the list of the bytes that are still to be read, up to its end. A byte's bit masks
-- 0xF0 and 0x0F are its quotient and its remainder by 16. A buffered reader peeks 4096 bytes at most.
use xun.Base.{ℕ, Option, Bytes}

-- net.Addr, of the two kinds that the code makes, or the one that ResolveTCPAddr gives.
pub data Addr : Type 0 where
  tcp : Bytes → ℕ → Addr
  udp : Bytes → ℕ → Addr

-- An absent address is nil. `command` and `protocol` are 0 in version 1.
pub record Header : Type 0 where
  pub local : Option Addr
  pub remote : Option Addr
  pub version : ℕ
  pub command : ℕ
  pub protocol : ℕ
  pub raw_tlvs : Bytes

-- What a reader returns: the header, or nil, and the connection behind what was consumed.
abbrev pub Read : Type 0
Read = Option Header × Bytes
