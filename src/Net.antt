-- ===== src/Net.antt =====
-- The addresses of package net, and translateDialAddr of port_wait.go.
use scaffold_go.Base.{ℕ, zero, suc, String, Bool, true, false, List, [], ◌∷◌, if◌then◌else◌}
use scaffold_go.Go.{ℤ}

-- A `net.IP`: four bytes, or eight groups that are not an IPv4 address in disguise.
pub data Ip : Type 0 where
  v4 : ℕ → ℕ → ℕ → ℕ → Ip
  v6 : List ℕ → Ip

-- A `net.Addr`: a `*net.TCPAddr`, or another one with its text.
pub data Addr : Type 0 where
  tcp_addr : Ip → ℤ → Addr
  other_addr : String → Addr

-- The text given to `net.DialTimeout`: the address's own, or a host with a port.
pub data DialAddr : Type 0 where
  own_text : Addr → DialAddr
  host_port : String → ℤ → DialAddr

abbrev all_zero : List ℕ → Bool
all_zero [] = true
all_zero (zero ∷ gs) = all_zero gs
all_zero (suc n ∷ gs) = false

-- `ip.IsUnspecified()`
abbrev pub is_unspecified : Ip → Bool
is_unspecified (v4 a b c d) = all_zero (a ∷ b ∷ c ∷ d ∷ [])
is_unspecified (v6 gs) = all_zero gs

-- `ip.To4() != nil`
abbrev pub is_v4 : Ip → Bool
is_v4 (v4 a b c d) = true
is_v4 (v6 gs) = false

unfoldable pub translate_dial_addr : Addr → DialAddr
translate_dial_addr (other_addr text) = own_text (other_addr text)
translate_dial_addr (tcp_addr ip port) =
    if is_unspecified ip
    then if is_v4 ip then host_port "127.0.0.1" port else host_port "[::1]" port
    else own_text (tcp_addr ip port)
