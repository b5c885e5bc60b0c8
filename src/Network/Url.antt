-- ===== src/Network/Url.antt =====
-- The checks of a URL. net/url, net.SplitHostPort and Syncthing's Device IDs are parameters.
use synctang.Enrol.Entries.{is_empty}
use synctang.Enrol.Host.{is_some}
use synctang.Text.{has_prefix}
use synctang.Prelude.{
  Bool, false, not, ◌||◌, List, [], ◌∷◌, Bytes, bytes_eq, codes, length, drop, Option, none, some,
  Result, ok, err, ◌>>=◌, or_err, fail_if, if◌then◌else◌,
}

pub record UrlLib : Type 1 where
  pub Url : Type 0
  pub parse : Bytes → Option Url
  pub scheme : Url → Bytes
  pub host : Url → Bytes
  pub has_user : Url → Bool
  -- the first value of a parameter of the query, empty when there is none
  pub query_get : Url → Bytes → Bytes
  pub query_has : Url → Bytes → Bool
  pub without_params : List Bytes → Url → Url
  pub with_scheme : Bytes → Url → Url
  pub to_string : Url → Bytes
  pub split_host_port : Bytes → Option (Bytes × Bytes)
  pub device_id_from_string : Bytes → Option Bytes

pub data UrlError : Type 0 where
  not_a_url not_http no_host credentials bad_server_id : UrlError
  announced_over_http pin_over_http http_not_meant : UrlError
  no_port bad_relay_id : UrlError

abbrev pub http : Bytes
http = codes "http"

abbrev pub https : Bytes
https = codes "https"

abbrev pub id_key : Bytes
id_key = codes "id"

abbrev pub insecure_key : Bytes
insecure_key = codes "insecure"

pub record DiscoveryOptions : Type 0 where
  -- `hasID` and `id`
  pub id : Option Bytes
  pub insecure : Bool

-- `strings.TrimPrefix`
abbrev pub trim_prefix : Bytes → Bytes → Bytes
trim_prefix s p = if has_prefix s p then drop (length p) s else s

module _ (lib : UrlLib) where
  unfoldable pub query_bool : lib.Url → Bytes → Bool
  query_bool u key =
      if not (lib.query_has u key)
      then false
      else not (bytes_eq (lib.query_get u key) (codes "false"))

  abbrev pub is_http : lib.Url → Bool
  is_http u = bytes_eq (lib.scheme u) http || bytes_eq (lib.scheme u) https

  -- The pinned id of the query, if there is one.
  unfoldable pub pinned_id : lib.Url → Result UrlError (Option Bytes)
  pinned_id u =
      if not (lib.query_has u id_key)
      then ok none
      else if is_empty (lib.query_get u id_key)
      then err bad_server_id
      else elim (lib.device_id_from_string (lib.query_get u id_key)) [
        | none ↦ err bad_server_id
        | some id ↦ ok (some id)
      ]

  unfoldable pub parse_discovery_url : Bytes → Result UrlError (Bytes × DiscoveryOptions)
  unfolding query_bool pinned_id
  parse_discovery_url s = do
    u ← or_err not_a_url (lib.parse s)
    scheme_ok ← fail_if (not (is_http u)) not_http
    has_host ← fail_if (is_empty (lib.host u)) no_host
    no_user ← fail_if (lib.has_user u) credentials
    id ← pinned_id u
    ok (
      lib.to_string (lib.without_params (id_key ∷ insecure_key ∷ []) u),
      record { id = id; insecure = query_bool u insecure_key },
    )

  -- What `validateDiscovery` asks of a URL whose scheme is plain http.
  unfoldable pub plain_http : Bool → DiscoveryOptions → Result UrlError (Unit {0})
  plain_http announced opts =
      if announced
      then err announced_over_http
      else if is_some opts.id
      then err pin_over_http
      else if not opts.insecure
      then err http_not_meant
      else ok tt

  unfoldable pub validate_discovery : Bytes → Bool → Result UrlError (Unit {0})
  unfolding parse_discovery_url plain_http
  validate_discovery s announced = do
    (server, opts) ← parse_discovery_url s
    elim (lib.parse s) [
      | none ↦ ok tt
      | some u ↦ if bytes_eq (lib.scheme u) http then plain_http announced opts else ok tt
    ]

  unfoldable pub validate_http_url : Bytes → Result UrlError (Unit {0})
  validate_http_url s = do
    u ← or_err not_a_url (lib.parse s)
    scheme_ok ← fail_if (not (is_http u)) not_http
    has_host ← fail_if (is_empty (lib.host u)) no_host
    fail_if (lib.has_user u) credentials

  -- The case of a single relay.
  unfoldable pub validate_relay : lib.Url → Result UrlError (Unit {0})
  validate_relay u = do
    no_user ← fail_if (lib.has_user u) credentials
    (host, port) ← or_err no_port (lib.split_host_port (lib.host u))
    has_port ← fail_if (is_empty port) no_port
    fail_if
        (is_empty (lib.query_get u id_key)
          || not (is_some (lib.device_id_from_string (lib.query_get u id_key))))
        bad_relay_id

  abbrev pub is_dynamic : lib.Url → Bool
  is_dynamic u =
      bytes_eq (lib.scheme u) (codes "dynamic+http")
      || bytes_eq (lib.scheme u) (codes "dynamic+https")

  abbrev pub is_relay : lib.Url → Bool
  is_relay u = bytes_eq (lib.scheme u) (codes "relay")

  abbrev pub pool_url : lib.Url → Bytes
  pool_url u = lib.to_string (lib.with_scheme (trim_prefix (lib.scheme u) (codes "dynamic+")) u)

  unfoldable pub validate_relay_pool : Bytes → Result UrlError (Unit {0})
  unfolding validate_relay validate_http_url
  validate_relay_pool s = do
    u ← or_err not_a_url (lib.parse s)
    if is_relay u
        then validate_relay u
        else if is_dynamic u
        then validate_http_url (pool_url u)
        else validate_http_url s
