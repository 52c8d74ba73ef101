-- ===== src/Acl.antt =====
-- internal/acl/allowlist.go, and what it uses of package net besides the parsers.
pub mod Rules
pub mod Prefix
mod Tests
use Prim.Native.Nat.{bit_and}
use packetpony.Base.{
  ℕ, Bool, true, false, ◌&&◌, ◌||◌, List, [], ◌∷◌, ◌++◌, Option, some, none, ◌==◌, if◌then◌else◌,
  length, take, drop, get_or, ◌⊎◌, inl, inr,
}
use packetpony.Net.{Ip, IpNet, Net}
use packetpony.Base.Text.{Text, text, trim_space, contains_char}

-- `ip[10] == 0xff && ip[11] == 0xff`, of the bytes from the tenth on.
abbrev pub is_mapping : List ℕ → Bool
is_mapping (f ∷ g ∷ bs) = f == 255 && g == 255
is_mapping _ = false

-- `isZeros`.
abbrev pub is_zeros : List ℕ → Bool
is_zeros [] = true
is_zeros (b ∷ bs) = b == 0 && is_zeros bs

-- `ip.To4()`: an address of 4 bytes, or one of 16 that maps such an address.
abbrev pub to4 : Ip → Option Ip
to4 ip =
    if length ip == 4
    then some ip
    else (if length ip == 16 && is_zeros (take 10 ip) && is_mapping (drop 10 ip)
        then some (drop 12 ip)
        else none)

-- `networkNumberAndMask`; where that returns nil, the number is empty.
abbrev pub network_number_and_mask : IpNet → Ip × List ℕ
network_number_and_mask n = elim (to4 n.ip) [
  | some ip ↦
      if length n.mask == 4
      then (ip, n.mask)
      else (if length n.mask == 16 then (ip, drop 12 n.mask) else ([], []))
  | none ↦ if length n.ip == 16 && length n.mask == 16 then (n.ip, n.mask) else ([], [])
]

-- The loop of `Contains`, over the bytes of the mask, the number and the address.
abbrev pub agree : List ℕ → List ℕ → List ℕ → Bool
agree (m ∷ ms) (n ∷ ns) (b ∷ bs) = bit_and n m == bit_and b m && agree ms ns bs
agree _ _ _ = true

-- `n.Contains(ip)`.
unfoldable pub contains : IpNet → Ip → Bool
contains n ip =
    let (number, mask) = network_number_and_mask n in
    let x = get_or (to4 ip) ip in length x == length number && agree mask number x

pub record Allowlist : Type 0 where
  pub rules : List IpNet

-- The errors of `parseCIDROrIP`, and of `NewAllowlist`, which names the entry.
pub data ParseError : Type 0 where
  invalid_cidr invalid_ip : ParseError

pub data Result {ℓ} (A : Type ℓ) : Type ℓ where
  ok : A → Result A
  invalid_entry : Text → ParseError → Result A

-- The network that is nil where `ParseCIDR` fails on a printed address. `Contains` of nil panics in the
-- source; here it contains no address.
abbrev pub nil_net : IpNet
nil_net = record { ip = []; mask = [] }

module _ (net : Net) where
  -- The single address as a network; the errors of these two calls are not looked at.
  unfoldable pub single_address : Ip → IpNet
  single_address ip = elim (to4 ip) [
    | some _ ↦ get_or (net.parse_cidr (net.string ip ++ text "/32")) nil_net
    | none ↦ get_or (net.parse_cidr (net.string ip ++ text "/128")) nil_net
  ]

  unfoldable pub parse_cidr_or_ip : Text → IpNet ⊎ ParseError
  parse_cidr_or_ip s =
      let t = trim_space s in
      if contains_char t b'/'
      then (elim (net.parse_cidr t) [ none ↦ inr invalid_cidr | some n ↦ inl n ])
      else (elim (net.parse_ip t) [ none ↦ inr invalid_ip | some ip ↦ inl (single_address ip) ])

  -- The loop of `NewAllowlist`.
  unfoldable pub parse_entries : List Text → Result (List IpNet)
  parse_entries [] = ok []
  parse_entries (e ∷ es) =
      let rest = parse_entries es in
      elim (parse_cidr_or_ip e) [
        | inr x ↦ invalid_entry e x
        | inl n ↦ elim rest [ ok ns ↦ ok (n ∷ ns) | invalid_entry f x ↦ invalid_entry f x ]
      ]

  unfoldable pub new_allowlist : List Text → Result Allowlist
  unfolding parse_entries
  new_allowlist entries = elim (parse_entries entries) [
    | ok ns ↦ ok (record { rules = ns })
    | invalid_entry e x ↦ invalid_entry e x
  ]

-- The loop of `IsAllowed`.
unfoldable pub matches_any : List IpNet → Ip → Bool
matches_any [] ip = false
matches_any (r ∷ rs) ip = contains r ip || matches_any rs ip

unfoldable pub is_allowed : Allowlist → Ip → Bool
unfolding matches_any
is_allowed a ip = if length a.rules == 0 then false else matches_any a.rules ip
