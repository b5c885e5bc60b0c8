-- ===== src/Resolver/Servers.antt =====
-- Which text names a name server that can be asked (`looksLikeResolvConf`,
-- cmd/synctang-unlocker/resolver.go).
use synctang.Prelude.{
  ◌≡◌, ◌≢◌, ◌↔◌, ◌⊎◌, inl, inr, Bool-cases, Option-cases, true, false, List, [], ◌∷◌, ◌++◌, Bytes,
  length, drop, drop-append, some, arith,
}
use synctang.Resolver.{
  Files, nameserver, cut_prefix, is_server_line, any_server_line, looks_like_resolv_conf,
}
use synctang.Text.{has_prefix, has_prefix_iff, split, trim_space}

-- `strings.CutPrefix` takes off the prefix.
pub cut_prefix_iff :
    (s prefix rest : Bytes) → (cut_prefix s prefix ≡ some rest) ↔ (s ≡ prefix ++ rest)
unfolding cut_prefix
cut_prefix_iff s prefix rest = (to_split, of_split)
  where
    to_split : cut_prefix s prefix ≡ some rest → s ≡ prefix ++ rest
    to_split h = elim (Bool-cases (has_prefix s prefix)) [
      | inr e ↦ absurd (ground arith)
      | inl e ↦
          let (more, spelled) = (has_prefix_iff s prefix).0 e in
          let dropped : drop (length prefix) s ≡ more = rw spelled (drop-append prefix more) in
          ground arith
    ]

    of_split : s ≡ prefix ++ rest → cut_prefix s prefix ≡ some rest
    of_split h =
        let dropped : drop (length prefix) s ≡ rest = rw h (drop-append prefix rest) in
        let starts = (has_prefix_iff s prefix).1 (rest, h) in ground arith

module _ (fs : Files) where
  -- The line is "nameserver " and an address that is not a loopback address.
  abbrev pub NamesServer : Bytes → Type 0
  NamesServer line =
      (rest : Bytes) × (trim_space line ≡ nameserver ++ rest)
      × (fs.is_loopback (trim_space rest) ≡ false)

  abbrev pub AnyLine : List Bytes → Type 0
  AnyLine [] = ⊥
  AnyLine (line ∷ lines) = NamesServer line ⊎ AnyLine lines

  abbrev pub HasServer : Bytes → Type 0
  HasServer content = AnyLine (split 10 content)

  is_server_line-NamesServer : (line : Bytes) → is_server_line fs line ≡ true → NamesServer line
  unfolding is_server_line
  is_server_line-NamesServer line h =
      elim (Option-cases (cut_prefix (trim_space line) nameserver)) [
        | inl e ↦ absurd (ground arith)
        | inr (rest, e) ↦
            (rest, (cut_prefix_iff (trim_space line) nameserver rest).0 e, ground arith)
      ]

  NamesServer-is_server_line : (line : Bytes) → NamesServer line → is_server_line fs line ≡ true
  unfolding is_server_line
  NamesServer-is_server_line line (rest, e, far) =
      let k = (cut_prefix_iff (trim_space line) nameserver rest).1 e in ground arith

  any_server_line-AnyLine : (lines : List Bytes) → any_server_line fs lines ≡ true → AnyLine lines
  unfolding any_server_line
  any_server_line-AnyLine [] h = absurd (ground arith)
  any_server_line-AnyLine (line ∷ lines) h = elim (Bool-cases (is_server_line fs line)) [
    | inl e ↦ inl (is_server_line-NamesServer line e)
    | inr e ↦ inr (any_server_line-AnyLine lines (ground arith))
  ]

  AnyLine-any_server_line : (lines : List Bytes) → AnyLine lines → any_server_line fs lines ≡ true
  unfolding any_server_line
  AnyLine-any_server_line [] h = absurd h
  AnyLine-any_server_line (line ∷ lines) (inl h) =
      let k = NamesServer-is_server_line line h in ground arith
  AnyLine-any_server_line (line ∷ lines) (inr h) =
      let k = AnyLine-any_server_line lines h in ground arith

  pub looks_like_resolv_conf_iff :
      (content : Bytes) → (looks_like_resolv_conf fs content ≡ true) ↔ HasServer content
  unfolding looks_like_resolv_conf
  looks_like_resolv_conf_iff content =
      (any_server_line-AnyLine (split 10 content), AnyLine-any_server_line (split 10 content))

  pub no_server_in_empty : looks_like_resolv_conf fs [] ≢ true
  unfolding looks_like_resolv_conf any_server_line is_server_line split trim_space cut_prefix
      has_prefix
  no_server_in_empty h = cc
