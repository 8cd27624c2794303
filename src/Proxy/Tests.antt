-- ===== src/Proxy/Tests.antt =====
-- ext/proxyproto/: runs, and the theorems at concrete inputs.
use xun.Base.{
  take, length, ◌+◌, ◌≡◌, refl, none, some, [], ◌∷◌, ◌++◌, Bytes, codes, Option, arith, inl,
  has_prefix, is_space,
}
use xun.Proxy.Defs.{Addr, tcp}
use xun.Proxy.V2.{read_v2_header, to_addr}
use xun.Proxy.V1.{read_v1_header}
use xun.Proxy.Conn.{try_use_proxy, v2_signature, new_conn, remote_addr, local_addr, read}
use xun.Proxy.RoundTrip2.{Proxied, IsPrintable, print_v2, read_v2_header-print_v2}
use xun.Proxy.RoundTrip1.{header_between, read_v1_header-print_v1}
use xun.Proxy.Passed.{use_all, asks_remote, asks_local, reads, try_use_proxy-EndsIn, load-print_v2}

abbrev proxied : Proxied
proxied = record {
  command = 0x21;
  protocol = 0x11;
  remote = 1 ∷ 2 ∷ 3 ∷ 4 ∷ [];
  local = 5 ∷ 6 ∷ 7 ∷ 8 ∷ [];
  remote_port = 258;
  local_port = 80;
  tlvs = 9 ∷ 9 ∷ [];
}

proxied-IsPrintable : IsPrintable proxied
proxied-IsPrintable = record {
  command = refl;
  family = inl refl;
  remote = refl;
  local = refl;
  remote_port = omega arith;
  local_port = omega arith;
  size = omega arith;
}

-- A resolver of its own for the runs: any address is read as it is written.
abbrev as_written : Bytes → Bytes → Option Addr
as_written network address = some (tcp address 0)

-- The payload of a protocol that is no IP protocol is left on the connection.
v2_tests :
    (read_v2_header (v2_signature ++ 0x20 ∷ 0 ∷ 0 ∷ 2 ∷ 7 ∷ 7 ∷ codes "GET")
      ≡ (none, 7 ∷ 7 ∷ codes "GET"))
    × (read_v2_header (v2_signature ++ 0x20 ∷ 0 ∷ 0 ∷ 0 ∷ codes "GET") ≡ (none, codes "GET"))
    × (read_v2_header (v2_signature ++ 0x22 ∷ 0x11 ∷ 0 ∷ 12 ∷ []) ≡ (none, 0x11 ∷ 0 ∷ 12 ∷ []))
unfolding read_v2_header
v2_tests = (refl, refl, refl)

read_v2_header-print_v2_example : read_v2_header (print_v2 proxied ++ codes "GET") ≡ (
  some (record {
    local = some (tcp (5 ∷ 6 ∷ 7 ∷ 8 ∷ []) 80);
    remote = some (tcp (1 ∷ 2 ∷ 3 ∷ 4 ∷ []) 258);
    version = 2;
    command = 0x21;
    protocol = 0x11;
    raw_tlvs = 9 ∷ 9 ∷ [];
  }),
  codes "GET",
)
unfolding to_addr
read_v2_header-print_v2_example = read_v2_header-print_v2 proxied (codes "GET") proxied-IsPrintable

load-print_v2_example :
    let us = asks_remote ∷ reads 2 ∷ asks_local ∷ asks_remote ∷ [] in
    let (c, got) =
      use_all as_written (new_conn (tcp [] 1) (tcp [] 2) (print_v2 proxied ++ codes "GET")) us in
    ((remote_addr as_written c).1 ≡ some (tcp (1 ∷ 2 ∷ 3 ∷ 4 ∷ []) 258))
    × ((local_addr as_written c).1 ≡ some (tcp (5 ∷ 6 ∷ 7 ∷ 8 ∷ []) 80))
    × (got ++ (read as_written c 1).1 ≡ take (length got + 1) (codes "GET"))
unfolding to_addr
load-print_v2_example =
    load-print_v2 as_written proxied (tcp [] 1) (tcp [] 2) (codes "GET")
      (asks_remote ∷ reads 2 ∷ asks_local ∷ asks_remote ∷ []) 1 proxied-IsPrintable

try_use_proxy-EndsIn_example :
    try_use_proxy as_written (codes "GET / HTTP/1.1\n") ≡ (none, codes "GET / HTTP/1.1\n")
unfolding has_prefix
try_use_proxy-EndsIn_example =
    (try_use_proxy-EndsIn as_written (codes "GET / HTTP/1.1\n")).1 refl refl

read_v1_header-print_v1_example :
    read_v1_header as_written (codes "PROXY TCP4 1.2.3.4 5.6.7.8 11 80\r\nGET") ≡ (
      header_between (some (tcp (codes "1.2.3.4:11") 0)) (some (tcp (codes "5.6.7.8:80") 0)),
      codes "GET",
    )
unfolding is_space
read_v1_header-print_v1_example =
    (read_v1_header-print_v1 as_written (codes "1.2.3.4") (codes "5.6.7.8") (codes "11")
      (codes "80") (codes "GET")
      (
        ((λ e. cc), (refl, (refl, (refl, (refl, (refl, (refl, (refl, tt)))))))),
        (
          ((λ e. cc), (refl, (refl, (refl, (refl, (refl, (refl, (refl, tt)))))))),
          (((λ e. cc), (refl, (refl, tt))), (((λ e. cc), (refl, (refl, tt))), tt)),
        ),
      )).0
