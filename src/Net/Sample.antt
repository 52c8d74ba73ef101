-- ===== src/Net/Sample.antt =====
-- A small package net for the tests: it prints an address as its bytes, and reads back some.
use packetpony.Base.{[], ◌∷◌, ◌++◌, Option, some, none, ite, ◌==◌, if◌then◌else◌}
use packetpony.Base.Int.{pos}
use packetpony.Base.Text.{Text, Text-discrete, text}
use packetpony.Net.{Ip, IpNet, Net}

abbrev pub home : Ip
home = 10 ∷ 0 ∷ 0 ∷ 7 ∷ []

abbrev pub away : Ip
away = 192 ∷ 0 ∷ 2 ∷ 1 ∷ []

abbrev pub ten : IpNet
ten = record { ip = 10 ∷ 0 ∷ 0 ∷ 0 ∷ []; mask = 255 ∷ 0 ∷ 0 ∷ 0 ∷ [] }

-- The text before the first colon, and the one behind it.
unfoldable pub split_colon : Text → Option (Text × Text)
split_colon [] = none
split_colon (c ∷ s) =
    let rest = split_colon s in
    if c == b':'
    then some ([], s)
    else (elim rest [ none ↦ none | some (host, port) ↦ some (c ∷ host, port) ])

abbrev pub sample_net : Net
sample_net = record {
  parse_cidr = λ t. ite (Text-discrete t (text "10.0.0.0/8")) (some ten) none;
  parse_ip = λ t. ite (Text-discrete t (text "10.0.0.7")) (some home) none;
  string = λ ip. ip;
  addr_string = λ a. a.ip ++ a.port ∷ [];
  split_host_port = split_colon;
  scan_int = λ t. pos 80;
}
