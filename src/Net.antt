-- ===== src/Net.antt =====
-- What the program uses of packages net and fmt: an `IP` is its bytes, 4 or 16 of them, an `IPNet` an
-- address with a mask. The parsers and printers are a parameter of the model.
pub mod Sample
use packetpony.Base.{ℕ, List, Option, Bool}
use packetpony.Base.Int.{ℤ}
use packetpony.Base.Text.{Text}

abbrev pub Ip : Type 0
Ip = List ℕ

pub record IpNet : Type 0 where
  pub ip : Ip
  pub mask : List ℕ

-- The address of a UDP or TCP peer.
pub record Addr : Type 0 where
  pub ip : Ip
  pub port : ℕ

pub record Net : Type 0 where
  pub parse_cidr : Text → Option IpNet  -- the network of `ParseCIDR`
  pub parse_ip : Text → Option Ip  -- `ParseIP`; `none` is nil
  pub string : Ip → Text  -- `IP.String`
  pub addr_string : Addr → Text  -- `UDPAddr.String`
  pub split_host_port : Text → Option (Text × Text)  -- `SplitHostPort`
  pub scan_int : Text → ℤ  -- what `Sscanf` with `%d` leaves in an `int` that was 0
