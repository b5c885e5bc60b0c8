-- ===== src/Network/Config.antt =====
-- `NetworkConfig`: its settings, how one overrides another, and what the relay client is told.
use synctang.Enrol.Entries.{is_empty}
use synctang.Network.Url.{UrlLib, UrlError, validate_discovery, validate_relay_pool}
use synctang.Text.{has_prefix}
use synctang.Prelude.{
  Bool, true, false, not, ◌&&◌, ◌||◌, List, [], ◌∷◌, ◌++◌, Bytes, codes, Option, none, some, Result,
  ok, ◌>>=◌, map_err, if◌then◌else◌,
}

pub record NetworkConfig : Type 0 where
  pub relay_pool : Bytes
  pub discovery : Bytes
  pub discovery_announce : Bytes

abbrev pub no_settings : NetworkConfig
no_settings = record { relay_pool = []; discovery = []; discovery_announce = [] }

abbrev pub network_key_relay_pool : Bytes
network_key_relay_pool = codes "relay-pool"

abbrev pub network_key_discovery : Bytes
network_key_discovery = codes "discovery"

abbrev pub network_key_discovery_announce : Bytes
network_key_discovery_announce = codes "discovery-announce"

-- The setting and what is wrong with it.
pub data ConfigError : Type 0 where
  bad_setting : Bytes → UrlError → ConfigError

-- A setting that is empty is not checked.
abbrev pub check_setting :
    Bytes → Bytes → Result UrlError (Unit {0}) → Result ConfigError (Unit {0})
check_setting key setting check =
    if is_empty setting then ok tt else map_err (λ e. bad_setting key e) check

module _ (lib : UrlLib) where
  unfoldable pub parse_config : Bytes → Bytes → Bytes → Bool → Result ConfigError NetworkConfig
  parse_config relay_pool discovery announce announces = do
    pool ← check_setting network_key_relay_pool relay_pool (validate_relay_pool lib relay_pool)
    looked_up ←
        check_setting network_key_discovery discovery
          (validate_discovery lib discovery (announces && is_empty announce))
    announced ←
        check_setting network_key_discovery_announce announce (validate_discovery lib announce true)
    ok (record { relay_pool = relay_pool; discovery = discovery; discovery_announce = announce })

  unfoldable pub parse_network_config : Bytes → Bytes → Bytes → Result ConfigError NetworkConfig
  unfolding parse_config
  parse_network_config relay_pool discovery announce =
      parse_config relay_pool discovery announce true

  unfoldable pub parse_dialer_network_config : Bytes → Bytes → Result ConfigError NetworkConfig
  unfolding parse_config
  parse_dialer_network_config discovery announce = parse_config [] discovery announce false

unfoldable pub is_zero : NetworkConfig → Bool
is_zero c = is_empty c.relay_pool && (is_empty c.discovery && is_empty c.discovery_announce)

abbrev pub or_else : Bytes → Bytes → Bytes
or_else a b = if is_empty a then b else a

unfoldable pub override : NetworkConfig → NetworkConfig → NetworkConfig
override c o = record {
  relay_pool = or_else o.relay_pool c.relay_pool;
  discovery = or_else o.discovery c.discovery;
  discovery_announce =
      or_else o.discovery_announce (if is_empty o.discovery then c.discovery_announce else []);
}

unfoldable pub relay_pool_url : NetworkConfig → Bytes
relay_pool_url c =
    if is_empty c.relay_pool
    then []
    else if has_prefix c.relay_pool (codes "relay://") || has_prefix c.relay_pool (codes "dynamic+")
    then c.relay_pool
    else codes "dynamic+" ++ c.relay_pool

unfoldable pub relay_kind : NetworkConfig → Bytes
relay_kind c =
    if is_empty c.relay_pool
    then []
    else if has_prefix c.relay_pool (codes "relay://")
    then codes "single relay"
    else codes "pool"

-- The settings of a new relay transport; `none` leaves its announce servers as they are.
pub record RelaySettings : Type 0 where
  pub relay_pool_url : Bytes
  pub discovery_url : Bytes
  pub announce_urls : Option (List Bytes)

unfoldable pub relay_settings : NetworkConfig → RelaySettings
relay_settings c = record {
  relay_pool_url = relay_pool_url c;
  discovery_url = c.discovery;
  announce_urls =
      if not (is_empty c.discovery_announce)
      then some (c.discovery_announce ∷ [])
      else if not (is_empty c.discovery)
      then some (c.discovery ∷ [])
      else none;
}
