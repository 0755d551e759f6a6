-- ===== src/Config.antt =====
-- internal/config/config.go: the configuration, its validation, and the Manager that loads it. Reading
-- the file and parsing its YAML are one parameter, from the defaults to the parsed configuration.
pub mod Valid
pub mod Tests
use olsr_go.Base.{
  Bool, true, false, not, ◌||◌, ◌&&◌, Option, none, some, List, [], ◌∷◌, if◌then◌else◌, Text, codes,
  text_eq, ◌==◌, ◌⊎◌, inl, inr,
}
use olsr_go.Base.Int.{ℤ, pos, ltb_ℤ}
use olsr_go.Base.Map.{GoMap, lookup, insert}
use olsr_go.Net.{Duration, to4}
use olsr_go.Net.Parse.{parse_ip}
use olsr_go.Neighbor.Mpr.{holds}

pub record Config : Type 0 where
  pub router_id : Text
  pub interfaces : List Text
  pub hello_interval : Duration
  pub tc_interval : Duration
  pub metrics_type : Text
  pub api_port : ℤ
  pub jwt_secret : Text
  pub zapi_address : Text
  pub standalone : Bool
  pub multicast_loop_prevention : Text

-- The errors of validate, and those of the file.
pub data ConfigError : Type 0 where
  router_id_required router_id_not_ipv4 no_interface empty_interface : ConfigError
  duplicate_interface hello_interval_not_positive tc_interval_not_positive : ConfigError
  bad_metrics_type bad_loop_prevention unreadable : ConfigError

abbrev pub is_ipv4 : Text → Bool
is_ipv4 s = elim (parse_ip s) [
  | none ↦ false
  | some ip ↦ elim (to4 ip) [ none ↦ false | some ip4 ↦ true ]
]

-- The loop over the interfaces; `none` is no error.
unfoldable pub check_interfaces : List Text → GoMap Text Bool → Option ConfigError
check_interfaces [] seen = none
check_interfaces (iface ∷ ifaces) seen =
    let more = check_interfaces ifaces (insert iface true seen) in
    if iface == []
    then some empty_interface
    else if holds (lookup iface seen)
    then some duplicate_interface
    else more

abbrev pub is_positive : Duration → Bool
is_positive d = ltb_ℤ (pos 0) d

abbrev pub is_metrics_type : Text → Bool
is_metrics_type t = t == codes "etx" || (t == codes "hopcount" || t == [])

abbrev pub is_loop_prevention : Text → Bool
is_loop_prevention t =
    t == codes "none" || (t == codes "nftables" || (t == codes "nfqueue" || t == []))

-- What is checked after the interfaces.
abbrev pub check_rest : Config → Option ConfigError
check_rest cfg =
    if not (is_positive cfg.hello_interval)
    then some hello_interval_not_positive
    else if not (is_positive cfg.tc_interval)
    then some tc_interval_not_positive
    else if not (is_metrics_type cfg.metrics_type)
    then some bad_metrics_type
    else if not (is_loop_prevention cfg.multicast_loop_prevention)
    then some bad_loop_prevention
    else none

abbrev pub or_else : Option ConfigError → Option ConfigError → Option ConfigError
or_else none next = next
or_else (some e) next = some e

unfoldable pub validate : Config → Option ConfigError
unfolding check_interfaces
validate cfg =
    if cfg.router_id == []
    then some router_id_required
    else if not (is_ipv4 cfg.router_id)
    then some router_id_not_ipv4
    else elim cfg.interfaces [
      | [] ↦ some no_interface
      | iface ∷ ifaces ↦ or_else (check_interfaces (iface ∷ ifaces) []) (check_rest cfg)
    ]

-- What the file is parsed over, with zeros for the other fields.
abbrev pub default_config : Config
default_config = record {
  router_id = [];
  interfaces = [];
  hello_interval = pos 0;
  tc_interval = pos 0;
  metrics_type = [];
  api_port = pos 8080;
  jwt_secret = codes "olsr-default-jwt-secret-key-must-be-changed";
  zapi_address = codes "/var/run/frr/zserv.api";
  standalone = false;
  multicast_loop_prevention = codes "none";
}

-- The file, as what it makes of the defaults; `none` where it cannot be read or parsed.
abbrev pub File : Type 0
File = Config → Option Config

unfoldable pub load_and_validate : File → Config ⊎ ConfigError
load_and_validate file = elim (file default_config) [
  | none ↦ inr unreadable
  | some cfg ↦ elim (validate cfg) [ none ↦ inl cfg | some e ↦ inr e ]
]

-- The state of the Manager: `none` before the first load.
abbrev pub Manager : Type 0
Manager = Option Config

-- Load and Reload, which differ in the text of the error only.
unfoldable pub load : File → Manager → Manager × Option ConfigError
load file m = elim (load_and_validate file) [ inl cfg ↦ (some cfg, none) | inr e ↦ (m, some e) ]

unfoldable pub reload : File → Manager → Manager × Option ConfigError
reload file m = elim (load_and_validate file) [ inl cfg ↦ (some cfg, none) | inr e ↦ (m, some e) ]

-- Config{}
abbrev pub zero_config : Config
zero_config = record {
  router_id = [];
  interfaces = [];
  hello_interval = pos 0;
  tc_interval = pos 0;
  metrics_type = [];
  api_port = pos 0;
  jwt_secret = [];
  zapi_address = [];
  standalone = false;
  multicast_loop_prevention = [];
}

abbrev pub get : Manager → Config
get none = zero_config
get (some cfg) = cfg

-- For `--check-config`.
abbrev pub validate_file : File → Option ConfigError
validate_file file = elim (load_and_validate file) [ inl cfg ↦ none | inr e ↦ some e ]

-- NewManager
abbrev pub new_manager : Manager
new_manager = none
