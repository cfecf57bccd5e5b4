-- ===== src/Socks/Examples.antt =====
-- The theorems on the wire protocol, each on a small connection.
use kfadapter.Base.{◌≡◌, [], ◌∷◌, none, some, arith, ◌==◌, if◌then◌else◌}
use kfadapter.Base.Bytes.{Bytes, codes}
use kfadapter.Socks.Protocol.{Netip, Target, ok, negotiate, read_user_password}
use kfadapter.Socks.Protocol.Negotiation.{conn, negotiate_greeting}
use kfadapter.Socks.Protocol.Passwords.{read_user_password_sent}

greeted : negotiate (conn (5 ∷ 2 ∷ 0 ∷ 2 ∷ 9 ∷ []) [] 100) ≡ (ok tt, conn (9 ∷ []) (5 ∷ 2 ∷ []) 98)
greeted = negotiate_greeting (0 ∷ 2 ∷ []) (9 ∷ []) [] 100 (omega arith) (omega arith)

abbrev greeting : Bytes
greeting = 5 ∷ 2 ∷ 0 ∷ 2 ∷ 9 ∷ []

abbrev answered : Bytes
answered = 5 ∷ 2 ∷ []

abbrev nothing : Bytes
nothing = []

abbrev credentials_sent : Bytes
credentials_sent = 1 ∷ 2 ∷ 0x6e ∷ 0x5f ∷ 1 ∷ 0x70 ∷ 7 ∷ []

credentials_read :
    read_user_password (conn credentials_sent [] 0)
    ≡ (ok (codes "n_", codes "p"), conn (7 ∷ []) [] 0)
credentials_read =
    read_user_password_sent (codes "n_") (codes "p") (7 ∷ []) [] 0 (omega arith) (omega arith)

-- Addresses that are written as their raw bytes; a text of four bytes denotes an address.
abbrev raw_netip : Netip
raw_netip = record {
  show_ipv4 = λ raw. raw;
  show_ipv6 = λ raw. raw;
  parse_addr =
      λ (s : Bytes). elim s [ [] ↦ none | b ∷ rest ↦ if b == 10 then some (b ∷ rest) else none ];
}

abbrev sample_request : Bytes
sample_request = 5 ∷ 1 ∷ 0 ∷ 3 ∷ 1 ∷ 0x61 ∷ 1 ∷ 187 ∷ 9 ∷ []

abbrev bound : Target
bound = record { host = 10 ∷ 0 ∷ 0 ∷ 1 ∷ []; port = 443 }

abbrev reply : Bytes
reply = 5 ∷ 0 ∷ 0 ∷ 1 ∷ 10 ∷ 0 ∷ 0 ∷ 1 ∷ 1 ∷ 187 ∷ []
