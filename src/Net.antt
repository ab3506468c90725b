-- ===== src/Net.antt =====
-- What the program uses of Rust's `std`: texts as their bytes, `std::net::IpAddr` and `SocketAddr`.
pub mod Utf8
pub mod Decimal
pub mod Coded
use dandelion.Prelude.{ℕ, List, Option, ◌≡◌, some}

-- A `String` or `&str` is the list of its UTF-8 bytes.
abbrev pub Text : Type 0
Text = List ℕ

-- `IpAddr`, by its octets: four of them for `v4`, sixteen for `v6`.
pub data IpAddr : Type 0 where
  v4 v6 : List ℕ → IpAddr

-- The `flowinfo` of a `SocketAddrV6` is left out: it is 0 in every address that std's parser and
-- `SocketAddr::new` make, and the program makes no others.
pub record SocketAddr : Type 0 where
  pub ip : IpAddr
  pub port : ℕ
  -- `SocketAddrV6::scope_id`; 0 for an address made by `SocketAddr::new`
  pub scope_id : ℕ

-- `FromStr` and `Display` of `IpAddr` and `SocketAddr`.
pub record AddrText : Type 0 where
  pub parse_ip : Text → Option IpAddr
  pub ip_to_string : IpAddr → Text
  pub parse_addr : Text → Option SocketAddr
  pub addr_to_string : SocketAddr → Text

-- What `std` documents of the two: a printed address reads back as the address.
pub record ReadsBack (t : AddrText) : Type 0 where
  pub parse_ip-to_string : (a : IpAddr) → t.parse_ip (t.ip_to_string a) ≡ some a
  pub parse_addr-to_string : (a : SocketAddr) → t.parse_addr (t.addr_to_string a) ≡ some a
