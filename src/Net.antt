-- ===== src/Net.antt =====
-- What several crates use of the standard library's `std::net`: the addresses of peers.
pub mod Pex
use rbitt.Prelude.{ℕ, Bool, false, ◌&&◌, Bytes, ◌==◌}
use rbitt.Prelude.Same.{same_bytes}

-- `SocketAddr`: the octets of the address, and the port.
pub data SocketAddr : Type 0 where
  v4 : (octets : Bytes) (port : ℕ) → SocketAddr
  v6 : (octets : Bytes) (port : ℕ) → SocketAddr

unfoldable pub same_addr : SocketAddr → SocketAddr → Bool
same_addr (v4 a p) (v4 b q) = same_bytes a b && p == q
same_addr (v6 a p) (v6 b q) = same_bytes a b && p == q
same_addr (v4 a p) (v6 b q) = false
same_addr (v6 a p) (v4 b q) = false
