-- ===== src/Config/Tests.antt =====
-- internal/config/config.go: the theorems at concrete files.
use mathlib.Core.Logic.{◌↔◌}
use olsr_go.Base.{
  ◌≡◌, refl, Bool, true, false, Option, none, some, List, [], ◌∷◌, arith, Text, codes, ◌⊎◌, inl,
  inr,
}
use olsr_go.Base.Int.{pos}
use olsr_go.Config.{
  Config, ConfigError, duplicate_interface, default_config, check_interfaces, validate, File,
  reload,
}
use olsr_go.Config.Valid.{IsValid, validate-none_iff, reload_keeps}

abbrev two_interfaces : Config
two_interfaces = record default_config {
  router_id = codes "10.0.0.1";
  interfaces = codes "wlan0" ∷ codes "eth0" ∷ [];
  hello_interval = pos 2000000000;
  tc_interval = pos 5000000000;
  metrics_type = codes "etx";
}

abbrev twice_wlan0 : Config
twice_wlan0 = record two_interfaces { interfaces = codes "wlan0" ∷ codes "wlan0" ∷ [] }

valid_accepted : validate two_interfaces ≡ none
unfolding validate check_interfaces olsr_go.Net.Parse.parse_ip olsr_go.Net.to4
    olsr_go.Base.Map.lookup olsr_go.Base.Map.insert
valid_accepted = refl

twice_refused : validate twice_wlan0 ≡ some duplicate_interface
unfolding validate check_interfaces olsr_go.Base.text_beq olsr_go.Net.Parse.parse_ip olsr_go.Net.to4
    olsr_go.Base.Map.lookup olsr_go.Base.Map.insert
twice_refused = refl

validate_example : (validate two_interfaces ≡ none) ↔ IsValid two_interfaces
validate_example = validate-none_iff two_interfaces

abbrev twice_wlan0_file : File
twice_wlan0_file cfg =
    some
      (record cfg { router_id = codes "10.0.0.1"; interfaces = codes "wlan0" ∷ codes "wlan0" ∷ [] })

reload_example :
    ((cfg : Config) × ((twice_wlan0_file default_config ≡ some cfg)
        × (IsValid cfg × (reload twice_wlan0_file (some two_interfaces) ≡ (some cfg, none)))))
    ⊎ (((cfg : Config) → twice_wlan0_file default_config ≡ some cfg → ¬ IsValid cfg)
        × ((e : ConfigError) × (reload twice_wlan0_file (some two_interfaces)
              ≡ (some two_interfaces, some e))))
reload_example = reload_keeps twice_wlan0_file (some two_interfaces)
