-- ===== src/Resolver.antt =====
-- cmd/synctang-unlocker/resolver.go: finding a name server in the initrd. Files are read and written
-- through parameters, and whether a text is a loopback address is a parameter (package net).
mod Tests
mod Servers
mod Offers
pub mod Choice
use synctang.Enrol.Entries.{is_empty}
use synctang.Prelude.{
  ℕ, Bool, true, false, not, ◌&&◌, ◌||◌, ◌==◌, List, [], ◌∷◌, ◌++◌, Bytes, codes, drop, length,
  if◌then◌else◌, Option, none, some,
}
use synctang.Text.{split, trim_space, has_prefix, is_space}

abbrev pub nameserver : Bytes
nameserver = codes "nameserver "

abbrev pub fallback_resolv_conf : Bytes
fallback_resolv_conf = codes "nameserver 1.1.1.1" ++ (10 ∷ codes "nameserver 9.9.9.9" ++ (10 ∷ []))

-- `strings.ContainsAny(pattern, "*?[")`
abbrev has_wildcard : Bytes → Bool
has_wildcard [] = false
has_wildcard (c ∷ s) = (c == 42 || (c == 63 || c == 91)) || has_wildcard s

-- `strings.CutPrefix`
unfoldable pub cut_prefix : Bytes → Bytes → Option Bytes
cut_prefix s prefix = if has_prefix s prefix then some (drop (length prefix) s) else none

-- `strings.Fields`, with the field that is open.
unfoldable pub fields_from : Bytes → Bytes → List Bytes
fields_from open_ [] = if is_empty open_ then [] else open_ ∷ []
fields_from open_ (c ∷ s) =
    let later = fields_from [] s in
    let longer = fields_from (open_ ++ (c ∷ [])) s in
    if is_space c then if is_empty open_ then later else open_ ∷ later else longer

unfoldable pub fields_of : Bytes → List Bytes
unfolding fields_from
fields_of s = fields_from [] s

-- The files: what can be read, and whether the one file can be written.
pub record Files : Type 0 where
  pub read : Bytes → Option Bytes
  -- `filepath.Glob`, no match after an error
  pub glob : Bytes → List Bytes
  pub write : Bytes → Bool
  pub is_loopback : Bytes → Bool

pub data FileOutcome : Type 0 where
  left_alone : FileOutcome
  wrote : Bytes → FileOutcome
  not_written : FileOutcome

module _ (fs : Files) where
  unfoldable pub is_server_line : Bytes → Bool
  unfolding cut_prefix
  is_server_line line = elim (cut_prefix (trim_space line) nameserver) [
    | none ↦ false
    | some rest ↦ not (fs.is_loopback (trim_space rest))
  ]

  unfoldable pub any_server_line : List Bytes → Bool
  unfolding is_server_line
  any_server_line [] = false
  any_server_line (line ∷ lines) = is_server_line line || any_server_line lines

  unfoldable pub looks_like_resolv_conf : Bytes → Bool
  unfolding any_server_line
  looks_like_resolv_conf content = any_server_line (split 10 content)

  unfoldable pub servers_of_lines : List Bytes → List Bytes
  unfolding fields_of cut_prefix
  servers_of_lines [] = []
  servers_of_lines (line ∷ lines) = elim (cut_prefix (trim_space line) (codes "DNS=")) [
    | none ↦ servers_of_lines lines
    | some value ↦ fields_of value ++ servers_of_lines lines
  ]

  unfoldable pub dns_from_networkd_state : Bytes → List Bytes
  unfolding servers_of_lines
  dns_from_networkd_state content = servers_of_lines (split 10 content)

  unfoldable pub server_lines : List Bytes → Bytes
  server_lines [] = []
  server_lines (s ∷ ss) = nameserver ++ (s ++ (10 ∷ server_lines ss))

  unfoldable pub resolv_conf_from_networkd_state : Bytes → Bytes
  unfolding server_lines dns_from_networkd_state
  resolv_conf_from_networkd_state content = server_lines (dns_from_networkd_state content)

  -- What a candidate file offers; a file that cannot be read offers nothing.
  unfoldable pub source_offer : Bytes → Option Bytes
  unfolding looks_like_resolv_conf
  source_offer candidate = elim (fs.read candidate) [
    | none ↦ none
    | some content ↦ if looks_like_resolv_conf content then some content else none
  ]

  unfoldable pub state_offer : Bytes → Option Bytes
  unfolding resolv_conf_from_networkd_state
  state_offer candidate = elim (fs.read candidate) [
    | none ↦ none
    | some content ↦
        let rendered = resolv_conf_from_networkd_state content in
        if is_empty rendered then none else some rendered
  ]

  -- The first offer that can be written.
  unfoldable pub first_written : (Bytes → Option Bytes) → List Bytes → Option Bytes
  first_written offer [] = none
  first_written offer (candidate ∷ candidates) =
      let later = first_written offer candidates in
      elim (offer candidate) [
        | none ↦ later
        | some content ↦ if fs.write content then some content else later
      ]

  -- `globAll`
  abbrev pub matches_of : Bytes → List Bytes
  matches_of pattern_ = if has_wildcard pattern_ then fs.glob pattern_ else pattern_ ∷ []

  abbrev pub glob_all : List Bytes → List Bytes
  glob_all [] = []
  glob_all (pattern_ ∷ patterns) = matches_of pattern_ ++ glob_all patterns

  abbrev pub is_usable : Option Bytes → Bool
  is_usable none = false
  is_usable (some content) = not (is_empty content) && looks_like_resolv_conf content

  -- What becomes of the file at `path`. The result of the last write is ignored by the code.
  unfoldable pub ensure_resolver_at : Bytes → List Bytes → List Bytes → FileOutcome
  unfolding first_written source_offer state_offer looks_like_resolv_conf
  ensure_resolver_at path sources state_files =
      if is_usable (fs.read path)
      then left_alone
      else elim (first_written source_offer (glob_all sources)) [
        | some content ↦ wrote content
        | none ↦ elim (first_written state_offer (glob_all state_files)) [
          | some rendered ↦ wrote rendered
          | none ↦ if fs.write fallback_resolv_conf then wrote fallback_resolv_conf else not_written
        ]
      ]
