-- ===== src/Socks/Protocol/Replies.antt =====
-- The reply of the server: its bytes are those of a request, so the reader takes them back.
use kfadapter.Base.{◌≡◌, ◌⊎◌, true, Option, none, some, length, all}
use kfadapter.Base.Bytes.{Bytes}
use kfadapter.Socks.Protocol.{is_host_byte, Netip}

-- What `netip` has to do for a host: its text denotes an address of four or sixteen bytes that is
-- written as that text, or none, and then it is printable.
abbrev pub IsHost : Netip → Bytes → Option Bytes → Type 0
IsHost ip host none = all is_host_byte host ≡ true
IsHost ip host (some raw) =
    ((length raw ≡ 4) × (ip.show_ipv4 raw ≡ host)) ⊎ ((length raw ≡ 16) × (ip.show_ipv6 raw ≡ host))
