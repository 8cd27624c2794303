-- ===== src/Proxy/V1.antt =====
-- ext/proxyproto/header.go: version 1 of the header.
use xun.Base.{
  ℕ, suc, Bool, true, false, not, Option, none, some, List, [], ◌∷◌, ◌++◌, Bytes, codes,
  if◌then◌else◌, take, drop, index_byte, equal, is_space,
}
use xun.Proxy.Defs.{Addr, Header, Read}

-- strings.Fields, of ASCII white space
abbrev pub starts_word : Bytes → Bool
starts_word [] = false
starts_word (c ∷ s) = not (is_space c)

abbrev pub join_word : ℕ → Bool → List Bytes → List Bytes
join_word c true (w ∷ ws) = (c ∷ w) ∷ ws
join_word c true [] = (c ∷ []) ∷ []
join_word c false ws = (c ∷ []) ∷ ws

unfoldable pub fields : Bytes → List Bytes
unfolding is_space
fields [] = []
fields (c ∷ s) =
    let rest = fields s in if is_space c then rest else join_word c (starts_word s) rest

abbrev pub v1_signature : Bytes
v1_signature = codes "PROXY "

-- The header of two addresses, unless one of them cannot be resolved.
abbrev pub v1_addresses : Option Addr → Option Addr → Option Header
v1_addresses (some remote) (some local) = some (record {
  remote = some remote;
  local = some local;
  version = 1;
  command = 0;
  protocol = 0;
  raw_tlvs = [];
})
v1_addresses _ _ = none

-- net.ResolveTCPAddr is the standard library's: a network and an address.
module _ (resolve : Bytes → Bytes → Option Addr) where
  unfoldable pub v1_header : List Bytes → Option Header
  unfolding equal
  v1_header (f0 ∷ f1 ∷ f2 ∷ f3 ∷ f4 ∷ f5 ∷ more) =
      if equal f1 (codes "TCP4")
      then v1_addresses (resolve (codes "tcp4") (f2 ++ codes ":" ++ f4))
          (resolve (codes "tcp4") (f3 ++ codes ":" ++ f5))
      else if equal f1 (codes "TCP6")
      then v1_addresses (resolve (codes "tcp6") (codes "[" ++ f2 ++ codes "]:" ++ f4))
          (resolve (codes "tcp6") (codes "[" ++ f3 ++ codes "]:" ++ f5))
      else none
  v1_header _ = none

  -- readV1Header
  unfoldable pub read_v1_header : Bytes → Read
  unfolding index_byte v1_header fields
  read_v1_header s = elim (index_byte s b'\n') [
    | none ↦ (none, [])
    | some i ↦ (v1_header (fields (take (suc i) s)), drop (suc i) s)
  ]
