-- ===== src/Ip.antt =====
-- src/ip_addr.cpp: `parse_ip_address`. inet_pton() is a parameter: the address bytes of a text of
-- its family, or none.
pub mod Accepts
use nshgeoip.Prelude.{
  ltb, ◌==◌, if◌then◌else◌, length, Bytes, is_empty, ℕ, ◌||◌, Option, none, some, [], ◌∷◌,
}

pub data Family : Type 0 where
  af_unspec af_inet af_inet6 : Family

-- The socket address: `len`, the family and the address bytes in network order.
pub record ParsedAddr : Type 0 where
  pub len : ℕ
  pub family : Family
  pub address : Bytes

abbrev pub InetPton : Type 0
InetPton = Family → Bytes → Option Bytes

-- `kMaxAddrTextLen`.
abbrev pub max_addr_text_len : ℕ
max_addr_text_len = 45

-- `sizeof(sockaddr_in)` and `sizeof(sockaddr_in6)` on Linux.
abbrev pub sockaddr_in_size : ℕ
sockaddr_in_size = 16

abbrev pub sockaddr_in6_size : ℕ
sockaddr_in6_size = 28

-- `c_str()` ends at the first NUL.
unfoldable pub c_str : Bytes → Bytes
c_str [] = []
c_str (c ∷ cs) = if c == 0 then [] else c ∷ c_str cs

module _ (inet_pton : InetPton) where
  unfoldable pub parse_ip_address : Bytes → Option ParsedAddr
  parse_ip_address text =
      if is_empty text || ltb max_addr_text_len (length text)
      then none
      else elim (inet_pton af_inet (c_str text)) [
        | some addr4 ↦ some (record { len = sockaddr_in_size; family = af_inet; address = addr4 })
        | none ↦ elim (inet_pton af_inet6 (c_str text)) [
          | some addr6 ↦
              some (record { len = sockaddr_in6_size; family = af_inet6; address = addr6 })
          | none ↦ none
        ]
      ]
