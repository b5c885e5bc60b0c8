-- ===== src/Network/Announced.antt =====
-- Where a machine announces itself.
use synctang.Enrol.Entries.{is_empty}
use synctang.Network.Config.{
  NetworkConfig, no_settings, ConfigError, network_key_relay_pool, network_key_discovery,
  network_key_discovery_announce, check_setting, parse_config, parse_network_config, override,
  relay_settings,
}
use synctang.Network.File.{
  ConfError, config_failed, Found, missing, unreadable, contents, setting, parse_conf_lines,
  parse_conf, cmdline_settings, parse_cmdline_network, file_settings, kernel_settings, Values,
  scan_failed, load_network_config,
}
use synctang.Network.Url.{
  UrlLib, http, https, pinned_id, parse_discovery_url, plain_http, validate_discovery,
  validate_relay_pool,
}
use synctang.Resolver.{fields_of}
use synctang.Prelude.{
  ◌≡◌, refl, subst, ◌>>=◌, map_err, fail_if, ◌⊎◌, inl, inr, Bool, Bool-cases, true, false, ◌&&◌,
  List, [], Bytes, bytes_eq→eq, All, Option, Option-cases, none, some, Result, Result-cases, ok,
  err, arith,
}

module _ (lib : UrlLib) where
  abbrev pub IsHttps : Bytes → Type 0
  IsHttps s = (u : lib.Url) × (lib.parse s ≡ some u) × (lib.scheme u ≡ https)

  -- The announce servers that are set.
  abbrev pub AnnouncedOver : Option (List Bytes) → Type 0
  AnnouncedOver none = Unit {0}
  AnnouncedOver (some urls) = All IsHttps urls

  abbrev Safe : NetworkConfig → Type 0
  Safe c =
      ((is_empty c.discovery_announce ≡ false) × IsHttps c.discovery_announce)
      ⊎ ((is_empty c.discovery_announce ≡ true)
          × ((is_empty c.discovery ≡ true)
              ⊎ ((is_empty c.discovery ≡ false) × IsHttps c.discovery)))

  validate_discovery-IsHttps : (s : Bytes) → validate_discovery lib s true ≡ ok tt → IsHttps s
  unfolding validate_discovery parse_discovery_url plain_http
  validate_discovery-IsHttps s h = elim (Option-cases (lib.parse s)) [
    | inl e ↦ absurd (ground arith)
    | inr (u, e) ↦ elim (Result-cases (pinned_id lib u)) [
      | inr (z, p) ↦ absurd (ground arith)
      | inl (id, p) ↦
          (u, e, ground (arith, bytes_eq→eq (lib.scheme u) http, bytes_eq→eq (lib.scheme u) https))
    ]
  ]

  all_passed :
      (pool d a : Result ConfigError (Unit {0})) (conf c : NetworkConfig)
      → (pool >>= λ p. d >>= λ q. a >>= λ r. ok conf) ≡ ok c
      → (d ≡ ok tt) × (a ≡ ok tt) × (conf ≡ c)
  all_passed (err e) d a conf c h = absurd (ground arith)
  all_passed (ok p) (err e) a conf c h = absurd (ground arith)
  all_passed (ok p) (ok q) (err e) conf c h = absurd (ground arith)
  all_passed (ok p) (ok q) (ok r) conf c h = (refl, refl, ground arith)

  checked_setting :
      (key value : Bytes) (announced : Bool)
      → announced ≡ true
      → is_empty value ≡ false
      → check_setting key value (validate_discovery lib value announced) ≡ ok tt
      → IsHttps value
  checked_setting key value announced same filled h =
      elim (Result-cases (validate_discovery lib value true)) [
        | inl (tt, e) ↦ validate_discovery-IsHttps value e
        | inr (z, e) ↦ absurd (ground arith)
      ]

  settings-Safe :
      (relay_pool discovery announce : Bytes)
      → check_setting network_key_discovery discovery
          (validate_discovery lib discovery (true && is_empty announce))
        ≡ ok tt
      → check_setting network_key_discovery_announce announce (validate_discovery lib announce true)
        ≡ ok tt
      → Safe
          (record { relay_pool = relay_pool; discovery = discovery; discovery_announce = announce })
  settings-Safe relay_pool discovery announce hd ha = elim (Bool-cases (is_empty announce)) [
    | inr e ↦ inl (e, checked_setting network_key_discovery_announce announce true refl e ha)
    | inl e ↦ elim (Bool-cases (is_empty discovery)) [
      | inl f ↦ inr (e, inl f)
      | inr f ↦ inr (
        e,
        inr (f, checked_setting network_key_discovery discovery (true && is_empty announce) e f hd),
      )
    ]
  ]

  parse_config-Safe :
      (relay_pool discovery announce : Bytes) (c : NetworkConfig)
      → parse_network_config lib relay_pool discovery announce ≡ ok c
      → Safe c × (c.discovery_announce ≡ announce)
  unfolding parse_network_config parse_config
  parse_config-Safe relay_pool discovery announce c h =
      let (hd, ha, same) =
        all_passed
          (check_setting network_key_relay_pool relay_pool (validate_relay_pool lib relay_pool))
          (check_setting network_key_discovery discovery
            (validate_discovery lib discovery (true && is_empty announce)))
          (check_setting network_key_discovery_announce announce
            (validate_discovery lib announce true))
          (record { relay_pool = relay_pool; discovery = discovery; discovery_announce = announce })
          c h in
      subst (λ (k : NetworkConfig). Safe k × (k.discovery_announce ≡ announce)) same
        (settings-Safe relay_pool discovery announce hd ha, refl)

  -- A command line that names a server drops the announce server of the file.
  override-Safe :
      (file cmd : NetworkConfig)
      → Safe file
      → Safe cmd
      → is_empty cmd.discovery_announce ≡ true
      → Safe (override file cmd)
  unfolding override
  override-Safe file cmd f c e = elim (Bool-cases (is_empty cmd.discovery)) [
    | inl d ↦ rw (e, d) f
    | inr d ↦
        rw (e, d)
          (elim c [
            | inl (filled, s) ↦ absurd (ground arith)
            | inr (none_set, inl empty) ↦ absurd (ground arith)
            | inr (none_set, inr (filled, s)) ↦ inr (refl, inr (d, s))
          ])
  ]

  relay_settings-AnnouncedOver :
      (c : NetworkConfig) → Safe c → AnnouncedOver (relay_settings c).announce_urls
  unfolding relay_settings
  relay_settings-AnnouncedOver c (inl (e, s)) = rw e (s, tt)
  relay_settings-AnnouncedOver c (inr (e, inl d)) = rw (e, d) tt
  relay_settings-AnnouncedOver c (inr (e, inr (d, s))) = rw (e, d) (s, tt)

  read_through :
      (vals : Result ConfError Values) (read : Result ConfError (Unit {0}))
      (last : Values → Result ConfigError NetworkConfig) (c : NetworkConfig)
      → (vals >>= λ v. read >>= λ r. map_err (λ e. config_failed e) (last v)) ≡ ok c
      → (v : Values) × (last v ≡ ok c)
  read_through (err e) read last c h = absurd (ground arith)
  read_through (ok v) (err e) last c h = absurd (ground arith)
  read_through (ok v) (ok r) last c h = elim (Result-cases (last v)) [
    | inl (k, e) ↦ (v, ground arith)
    | inr (z, e) ↦ absurd (ground arith)
  ]

  parse_conf-Safe :
      (lines : List Bytes) (scan_error : Bool) (c : NetworkConfig)
      → parse_conf lib true lines scan_error ≡ ok c
      → Safe c
  unfolding parse_conf
  parse_conf-Safe lines scan_error c h =
      let (vals, e) =
        read_through (parse_conf_lines true 1 lines []) (fail_if scan_error scan_failed)
          (λ vals.
            parse_network_config lib (setting network_key_relay_pool vals)
              (setting network_key_discovery vals) (setting network_key_discovery_announce vals))
          c h in
      (parse_config-Safe (setting network_key_relay_pool vals) (setting network_key_discovery vals)
        (setting network_key_discovery_announce vals) c e).0

  parse_cmdline_network-Safe :
      (raw : Bytes) (c : NetworkConfig)
      → parse_cmdline_network lib raw ≡ ok c
      → Safe c × (c.discovery_announce ≡ [])
  unfolding parse_cmdline_network
  parse_cmdline_network-Safe raw c h =
      parse_config-Safe (cmdline_settings (fields_of raw) ([], [])).0
        (cmdline_settings (fields_of raw) ([], [])).1 [] c h

  no_settings-Safe : Safe no_settings
  no_settings-Safe = inr (refl, inl refl)

  file-Safe :
      (conf : Found (List Bytes × Bool)) (file : NetworkConfig)
      → file_settings lib conf ≡ ok file
      → Safe file
  unfolding file_settings
  file-Safe missing file h =
      let same : no_settings ≡ file = ground arith in subst Safe same no_settings-Safe
  file-Safe unreadable file h = absurd (ground arith)
  file-Safe (contents (lines, scan_error)) file h = parse_conf-Safe lines scan_error file h

  cmdline-Safe :
      (found : Found Bytes) (cmd : NetworkConfig)
      → kernel_settings lib found ≡ ok cmd
      → Safe cmd × (is_empty cmd.discovery_announce ≡ true)
  unfolding kernel_settings
  cmdline-Safe missing cmd h =
      let same : no_settings ≡ cmd = ground arith in
      subst (λ (c : NetworkConfig). Safe c × (is_empty c.discovery_announce ≡ true)) same
        (no_settings-Safe, refl)
  cmdline-Safe unreadable cmd h = absurd (ground arith)
  cmdline-Safe (contents raw) cmd h = elim (Result-cases (parse_cmdline_network lib raw)) [
    | inr (z, e) ↦ absurd (ground arith)
    | inl (k, e) ↦
        let (s, none_set) = parse_cmdline_network-Safe raw cmd (ground arith) in
        (s, rw none_set refl)
  ]

  -- Whatever network.conf and the kernel's command line say, if a machine accepts them, then every server
  -- that they make it announce itself to is one that is reached over https: its URL has that scheme.
  pub load_network_config-AnnouncedOver :
      (conf : Found (List Bytes × Bool)) (cmdline : Found Bytes) (c : NetworkConfig)
      → load_network_config lib conf cmdline ≡ ok c
      → AnnouncedOver (relay_settings c).announce_urls
  unfolding load_network_config
  load_network_config-AnnouncedOver conf cmdline c h =
      elim (Result-cases (file_settings lib conf)) [
        | inr (z, e) ↦ absurd (ground arith)
        | inl (file, e) ↦ elim (Result-cases (kernel_settings lib cmdline)) [
          | inr (z, f) ↦ absurd (ground arith)
          | inl (cmd, f) ↦
              let (s, none_set) = cmdline-Safe cmdline cmd f in
              let same : override file cmd ≡ c = ground arith in
              subst (λ (k : NetworkConfig). AnnouncedOver (relay_settings k).announce_urls) same
                (relay_settings-AnnouncedOver (override file cmd)
                  (override-Safe file cmd (file-Safe conf file e) s none_set))
        ]
      ]
