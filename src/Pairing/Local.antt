-- ===== src/Pairing/Local.antt =====
-- internal/pairing/discovery.go: which addresses belong to the local network, by the documented
-- blocks of `net.IP.IsPrivate`, `IsLoopback` and `IsLinkLocalUnicast`.
use otherhost.Base.{ℕ, Bool, false, ◌&&◌, ◌||◌, ◌==◌, within}

-- A `net.IP`: four bytes, also where the address comes in its 16-byte form, the eight groups of any
-- other 16-byte address, or nil.
pub data Ip : Type 0 where
  ip4 : ℕ → ℕ → ℕ → ℕ → Ip
  ip6 : ℕ → ℕ → ℕ → ℕ → ℕ → ℕ → ℕ → ℕ → Ip
  no_ip : Ip

-- 10.0.0.0/8, 172.16.0.0/12, 192.168.0.0/16 and fc00::/7.
unfoldable pub is_private : Ip → Bool
is_private (ip4 a b c d) = a == 10 || ((a == 172 && within 16 31 b) || (a == 192 && b == 168))
is_private (ip6 a b c d e f g h) = within 0xfc00 0xfdff a
is_private no_ip = false

-- 127.0.0.0/8 and ::1.
unfoldable pub is_loopback : Ip → Bool
is_loopback (ip4 a b c d) = a == 127
is_loopback (ip6 a b c d e f g h) =
    a == 0 && (b == 0 && (c == 0 && (d == 0 && (e == 0 && (f == 0 && (g == 0 && h == 1))))))
is_loopback no_ip = false

-- 169.254.0.0/16 and fe80::/10.
unfoldable pub is_link_local : Ip → Bool
is_link_local (ip4 a b c d) = a == 169 && b == 254
is_link_local (ip6 a b c d e f g h) = within 0xfe80 0xfebf a
is_link_local no_ip = false

unfoldable pub is_local_network_ip : Ip → Bool
unfolding is_private is_loopback is_link_local
is_local_network_ip ip = is_private ip || (is_loopback ip || is_link_local ip)
