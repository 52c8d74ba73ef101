-- ===== src/Main/Tests.antt =====
-- The program on a machine where nothing is in the way, until a signal comes.
use packetpony.Base.{◌≡◌, refl, true, false, List, [], ◌∷◌, some, none, ite}
use packetpony.Base.Text.{Text, Text-discrete, text}
use packetpony.Net.Sample.{home, sample_net, split_colon}
use packetpony.Config.Sample.{config, loaded}
use packetpony.Metrics.{Collector}
use packetpony.Session.{connected}
use packetpony.Base.Map.{lookup, insert}
use packetpony.Base.Text.{trim_space, contains_char, to_lower}
use packetpony.Acl.{new_allowlist, parse_entries, parse_cidr_or_ip}
use packetpony.Proxy.Udp.{wrote, read_bytes}
use packetpony.Proxy.Udp.History.{packet, reader}
use packetpony.Listener.{Listener, new_manager, add_listeners, new_listener, new_udp_listener}
use packetpony.Listener.Lifecycle.{binds}
use packetpony.Main.{Machine, Flags}

abbrev path : Text
path = text "config.yaml"

-- A registry that takes everything.
abbrev machine : Machine (List Collector)
machine = record {
  net = sample_net;
  host = record { quote = λ t. t; date = λ t. text "now"; file_writes = true };
  read_file = λ p. ite (Text-discrete p path) (some config) none;
  syslog_opens = false;
  json_opens = false;
  registry = [];
  register = λ c r. some (c ∷ r);
  normal = λ p. some p;
  bind = λ name. binds;
  traffic = λ name. record {
    connections = [];
    tracked = [];
    datagrams =
        packet 60 (record { ip = home; port = 5353 }) 100 connected (wrote 60)
        ∷ reader 0 (read_bytes 1200 true) 110
        ∷ [];
  };
  drains = λ name. true;
  signal = some (text "terminated");
}

abbrev flags : Flags
flags = record {
  config_path = path;
  show_version = false;
  version = text "dev";
  commit = text "unknown";
  build_time = text "unknown";
}

made : (ls : List (Text × Listener)) × (new_manager sample_net loaded ≡ some ls)
unfolding new_manager add_listeners new_listener new_udp_listener new_allowlist parse_entries
    parse_cidr_or_ip split_colon trim_space contains_char Text-discrete lookup insert to_lower
made = (_, refl)
