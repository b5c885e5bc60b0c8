-- ===== src/Network/Tests.antt =====
-- URLs whose scheme is told by their first bytes, and a network.conf read with them.
use synctang.Network.Announced.{AnnouncedOver, load_network_config-AnnouncedOver}
use synctang.Network.Config.{
  NetworkConfig, override, parse_network_config, parse_config, relay_settings,
}
use synctang.Network.File.{
  Found, missing, contents, given_twice, load_network_config, file_settings, kernel_settings,
  parse_conf, parse_conf_lines, parse_conf_line, check_key,
}
use synctang.Network.Url.{
  UrlLib, https, http, validate_discovery, parse_discovery_url, pinned_id, query_bool, plain_http,
}
use synctang.Assoc.{lookup}
use synctang.Text.{has_prefix, trim_space, trim_left, trim_right, is_space, cut}
use synctang.Prelude.{
  ◌≡◌, refl, Bool, false, List, [], ◌∷◌, Bytes, codes, none, some, ok, err, if◌then◌else◌,
}

abbrev pub plain_urls : UrlLib
plain_urls = record {
  Url = Bytes;
  parse = λ s. some s;
  scheme = λ s. if has_prefix s (codes "https:") then https else http;
  host = λ s. codes "host";
  has_user = λ s. false;
  query_get = λ s k. [];
  query_has = λ s k. false;
  without_params = λ ks s. s;
  with_scheme = λ c s. s;
  to_string = λ s. s;
  split_host_port = λ h. none;
  device_id_from_string = λ s. some s;
}

abbrev conf : Found (List Bytes × Bool)
conf = contents (codes "# ours" ∷ codes "discovery = https://d" ∷ [], false)

abbrev ours : NetworkConfig
ours = record { relay_pool = []; discovery = codes "https://d"; discovery_announce = [] }

conf_run : load_network_config plain_urls conf missing ≡ ok ours
unfolding load_network_config file_settings kernel_settings parse_conf parse_conf_lines
    parse_conf_line check_key lookup trim_space trim_left trim_right is_space cut has_prefix
    override parse_network_config parse_config validate_discovery parse_discovery_url pinned_id
    query_bool plain_http
conf_run = refl

twice_run :
    file_settings plain_urls (contents (codes "discovery=" ∷ codes "discovery=" ∷ [], false))
    ≡ err (given_twice 2)
unfolding file_settings parse_conf parse_conf_lines parse_conf_line check_key lookup trim_space
    trim_left trim_right is_space cut has_prefix
twice_run = refl

load_network_config-AnnouncedOver_example :
    AnnouncedOver plain_urls (relay_settings ours).announce_urls
unfolding has_prefix
load_network_config-AnnouncedOver_example =
    load_network_config-AnnouncedOver plain_urls conf missing ours conf_run
