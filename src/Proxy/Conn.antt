-- ===== src/Proxy/Conn.antt =====
-- ext/proxyproto/conn.go: a connection that may begin with a header.
use xun.Base.{
  ℕ, Bool, true, false, Option, none, some, ◌∷◌, ◌++◌, Bytes, codes, leb, if◌then◌else◌, length,
  take, drop, has_prefix,
}
use xun.Proxy.Defs.{Addr, Header, Read}
use xun.Proxy.V1.{v1_signature, read_v1_header}
use xun.Proxy.V2.{read_v2_header}

abbrev pub v2_signature : Bytes
v2_signature = codes "\r\n\r\n" ++ 0 ∷ codes "\r\nQUIT\n"

-- A conn: the addresses of the connection below, and what is known of the header.
pub record Conn : Type 0 where
  pub local : Addr
  pub remote : Addr
  pub unread : Bytes
  pub header : Option Header
  pub is_loaded : Bool

-- NewConn
unfoldable pub new_conn : Addr → Addr → Bytes → Conn
new_conn local remote unread = record {
  local = local;
  remote = remote;
  unread = unread;
  header = none;
  is_loaded = false;
}

-- net.ResolveTCPAddr is the standard library's: a network and an address.
module _ (resolve : Bytes → Bytes → Option Addr) where
  -- tryUseProxy: the header, and what is left to read.
  unfoldable pub try_use_proxy : Bytes → Read
  unfolding has_prefix read_v1_header read_v2_header
  try_use_proxy s =
      if leb 13 (length s)
      then if has_prefix (take 13 s) v1_signature
        then read_v1_header resolve s
        else if has_prefix (take 13 s) v2_signature
        then read_v2_header s
        else (none, s)
      else (none, s)

  -- The first lines of Read, LocalAddr and RemoteAddr
  unfoldable pub load : Conn → Conn
  unfolding try_use_proxy
  load c =
      if c.is_loaded
      then c
      else let (h, rest) = try_use_proxy c.unread in
        record c { header = h; unread = rest; is_loaded = true }

  -- Read, of the next `n` bytes
  unfoldable pub read : Conn → ℕ → Conn × Bytes
  unfolding load
  read c n = let c' = load c in (record c' { unread = drop n c'.unread }, take n c'.unread)

  -- LocalAddr and RemoteAddr
  unfoldable pub local_addr : Conn → Conn × Option Addr
  unfolding load
  local_addr c = let c' = load c in (c', elim c'.header [ some h ↦ h.local | none ↦ some c'.local ])

  unfoldable pub remote_addr : Conn → Conn × Option Addr
  unfolding load
  remote_addr c =
      let c' = load c in (c', elim c'.header [ some h ↦ h.remote | none ↦ some c'.remote ])
