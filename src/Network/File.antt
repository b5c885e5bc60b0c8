-- ===== src/Network/File.antt =====
-- `parseNetworkConf`, the kernel's arguments, and the two together. A file is what bufio.Scanner makes of
-- it: its lines, and whether reading ends in an error.
use synctang.Assoc.{Assoc, lookup}
use synctang.Enrol.Entries.{is_empty}
use synctang.Network.Config.{
  NetworkConfig, no_settings, ConfigError, network_key_relay_pool, network_key_discovery,
  network_key_discovery_announce, parse_network_config, parse_dialer_network_config, override,
}
use synctang.Network.Url.{UrlLib, trim_prefix}
use synctang.Resolver.{fields_of}
use synctang.Text.{trim_space, has_prefix, cut}
use synctang.Prelude.{
  ℕ, ◌+◌, Bool, true, false, not, ◌&&◌, ◌||◌, List, [], ◌∷◌, Bytes, bytes_eq, codes, none, some,
  Result, ok, err, ◌>>=◌, ◌>>◌, map_err, fail_if, if◌then◌else◌,
}

pub data ConfError : Type 0 where
  -- the number of the line
  expected_key_value machine_setting unknown_key given_twice : ℕ → ConfError
  scan_failed : ConfError
  config_failed : ConfigError → ConfError
  unreadable_file unreadable_cmdline : ConfError

abbrev pub Values : Type 0
Values = Assoc Bytes

abbrev pub is_known : Bytes → Bool
is_known key =
    bytes_eq key network_key_relay_pool
    || (bytes_eq key network_key_discovery || bytes_eq key network_key_discovery_announce)

-- The checks of a key, in the order of the switch.
unfoldable pub check_key : Bool → ℕ → Bytes → Values → Result ConfError (Unit {0})
unfolding lookup
check_key allow_relay_pool n key vals =
    if bytes_eq key network_key_relay_pool && not allow_relay_pool
    then err (machine_setting n)
    else if not (is_known key)
    then err (unknown_key n)
    else elim (lookup key vals) [ none ↦ ok tt | some v ↦ err (given_twice n) ]

-- One line, its white space trimmed.
unfoldable pub parse_conf_line : Bool → ℕ → Bytes → Values → Result ConfError Values
unfolding check_key
parse_conf_line allow_relay_pool n line vals =
    if is_empty line || has_prefix line (codes "#") then ok vals else elim (cut b'=' line) [
      | none ↦ err (expected_key_value n)
      | some (key, val) ↦
          check_key allow_relay_pool n (trim_space key) vals
          >> ok ((trim_space key, trim_space val) ∷ vals)
    ]

unfoldable pub parse_conf_lines : Bool → ℕ → List Bytes → Values → Result ConfError Values
unfolding parse_conf_line
parse_conf_lines allow_relay_pool n [] vals = ok vals
parse_conf_lines allow_relay_pool n (line ∷ lines) vals =
    parse_conf_line allow_relay_pool n (trim_space line) vals
    >>= parse_conf_lines allow_relay_pool (n + 1) lines

-- `vals[key]`
abbrev pub setting : Bytes → Values → Bytes
setting key vals = elim (lookup key vals) [ none ↦ [] | some v ↦ v ]

abbrev pub cmdline_relay : Bytes
cmdline_relay = codes "rd.synctang.relay="

abbrev pub cmdline_discovery : Bytes
cmdline_discovery = codes "rd.synctang.discovery="

-- What becomes of opening a file.
pub data Found (A : Type 0) : Type 0 where
  missing unreadable : Found A
  contents : A → Found A

-- The last argument of each kind counts.
unfoldable pub cmdline_settings : List Bytes → Bytes × Bytes → Bytes × Bytes
cmdline_settings [] found = found
cmdline_settings (arg ∷ args) (relay, discovery) = cmdline_settings args (
    if has_prefix arg cmdline_relay
    then (trim_prefix arg cmdline_relay, discovery)
    else if has_prefix arg cmdline_discovery
    then (relay, trim_prefix arg cmdline_discovery)
    else (relay, discovery))

module _ (lib : UrlLib) where
  unfoldable pub parse_conf : Bool → List Bytes → Bool → Result ConfError NetworkConfig
  unfolding parse_conf_lines lookup
  parse_conf allow_relay_pool lines scan_error = do
    vals ← parse_conf_lines allow_relay_pool 1 lines []
    read ← fail_if scan_error scan_failed
    map_err (λ e. config_failed e)
        (if allow_relay_pool
          then parse_network_config lib (setting network_key_relay_pool vals)
              (setting network_key_discovery vals) (setting network_key_discovery_announce vals)
          else parse_dialer_network_config lib (setting network_key_discovery vals)
              (setting network_key_discovery_announce vals))

  -- The error names the kernel's argument, a text that is left out.
  unfoldable pub parse_cmdline_network : Bytes → Result ConfigError NetworkConfig
  unfolding cmdline_settings
  parse_cmdline_network cmdline =
      let (relay, discovery) = cmdline_settings (fields_of cmdline) ([], []) in
      parse_network_config lib relay discovery []

  -- A file that may be missing: `os.Open` and `os.ReadFile`, with the error fs.ErrNotExist told apart.
  unfoldable pub file_settings : Found (List Bytes × Bool) → Result ConfError NetworkConfig
  unfolding parse_conf
  file_settings missing = ok no_settings
  file_settings unreadable = err unreadable_file
  file_settings (contents (lines, scan_error)) = parse_conf true lines scan_error

  unfoldable pub kernel_settings : Found Bytes → Result ConfError NetworkConfig
  unfolding parse_cmdline_network
  kernel_settings missing = ok no_settings
  kernel_settings unreadable = err unreadable_cmdline
  kernel_settings (contents raw) = map_err (λ e. config_failed e) (parse_cmdline_network raw)

  unfoldable pub load_network_config :
      Found (List Bytes × Bool) → Found Bytes → Result ConfError NetworkConfig
  unfolding file_settings kernel_settings
  load_network_config conf cmdline = do
    file ← file_settings conf
    cmd ← kernel_settings cmdline
    ok (override file cmd)

  unfoldable pub holder_file : Found (List Bytes × Bool) → Bool → Result ConfError NetworkConfig
  unfolding parse_conf
  holder_file missing explicit = if explicit then err unreadable_file else ok no_settings
  holder_file unreadable explicit = err unreadable_file
  holder_file (contents (lines, scan_error)) explicit = parse_conf false lines scan_error

  -- The key holder's, where `explicit` says that the file was named on the command line.
  unfoldable pub load_holder_config :
      Found (List Bytes × Bool) → Bool → Bytes → Bytes → Result ConfError NetworkConfig
  unfolding holder_file
  load_holder_config conf explicit discovery announce = do
    file ← holder_file conf explicit
    flags ← map_err (λ e. config_failed e) (parse_dialer_network_config lib discovery announce)
    ok (override file flags)
