-- ===== src/Resolver/Choice.antt =====
-- What the search for a resolver (cmd/synctang-unlocker/resolver.go) leaves in the file.
use synctang.Prelude.{
  ◌≡◌, refl, sym, Bool-cases, true, false, List, [], ◌∷◌, Bytes, All, Option, none, some, inl, inr,
  arith, if◌then◌else◌,
}
use synctang.Resolver.{
  Files, FileOutcome, left_alone, wrote, not_written, fallback_resolv_conf, looks_like_resolv_conf,
  source_offer, state_offer, first_written, is_usable, ensure_resolver_at, glob_all,
}
use synctang.Resolver.Servers.{HasServer, looks_like_resolv_conf_iff, no_server_in_empty}
use synctang.Resolver.Offers.{
  FromFile, FromState, Unwritten, FirstOf, FirstOrNone, source_offer_iff, state_offer_iff,
  first_written-FirstOrNone,
}

module _ (fs : Files) where
  -- The file at the path cannot be read, or it has no name server.
  abbrev pub Unusable : Bytes → Type 0
  Unusable path = (content : Bytes) → fs.read path ≡ some content → ¬ HasServer fs content

  -- What becomes of the file, and where the text in it comes from.
  pub data Origin (path : Bytes) (sources states : List Bytes) : FileOutcome → Type 0 where
    kept :
        (content : Bytes)
        → fs.read path ≡ some content
        → HasServer fs content
        → Origin path sources states left_alone
    copied :
        (content : Bytes)
        → Unusable path
        → FirstOf fs (FromFile fs) (glob_all fs sources) content
        → Origin path sources states (wrote content)
    rendered :
        (content : Bytes)
        → Unusable path
        → All (Unwritten fs (FromFile fs)) (glob_all fs sources)
        → FirstOf fs (FromState fs) (glob_all fs states) content
        → Origin path sources states (wrote content)
    fell_back :
        Unusable path
        → All (Unwritten fs (FromFile fs)) (glob_all fs sources)
        → All (Unwritten fs (FromState fs)) (glob_all fs states)
        → fs.write fallback_resolv_conf ≡ true
        → Origin path sources states (wrote fallback_resolv_conf)
    gave_up :
        Unusable path
        → All (Unwritten fs (FromFile fs)) (glob_all fs sources)
        → All (Unwritten fs (FromState fs)) (glob_all fs states)
        → fs.write fallback_resolv_conf ≡ false
        → Origin path sources states not_written

  Unusable-is_usable :
      (path : Bytes) (o : Option Bytes) → fs.read path ≡ o → is_usable fs o ≡ false → Unusable path
  Unusable-is_usable path none e h content r has = absurd (ground arith)
  Unusable-is_usable path (some text) e h content r has =
      let same : text ≡ content = ground arith in
      let good = (looks_like_resolv_conf_iff fs content).1 has in no_text text content same good h
    where
      no_text :
          (text content : Bytes)
          → text ≡ content
          → looks_like_resolv_conf fs content ≡ true
          → is_usable fs (some text) ≡ false
          → ⊥
      no_text [] content same good h = let k = rw (sym same) at good in no_server_in_empty fs k
      no_text (c ∷ text) content same good h = let k = rw (sym same) at good in ground arith

  -- The file is left alone exactly if it has a name server that is not a loopback address. Otherwise it
  -- gets the text of the first resolver file that has one; or else what the first state file of
  -- systemd-networkd names; or else the public resolvers. A candidate is passed over only if it offers
  -- nothing or its offer cannot be written, and nothing is written only if the public resolvers cannot
  -- be either.
  pub ensure_resolver_at-Origin :
      (path : Bytes) (sources states : List Bytes)
      → Origin path sources states (ensure_resolver_at fs path sources states)
  unfolding ensure_resolver_at
  ensure_resolver_at-Origin path sources states = elim (Bool-cases (is_usable fs (fs.read path))) [
    | inl good ↦ rw good (let (content, e, has) = usable (fs.read path) good in kept content e has)
    | inr bad ↦ rw bad (
        from_sources (Unusable-is_usable path (fs.read path) refl bad)
          (first_written fs (source_offer fs) (glob_all fs sources))
          (first_written-FirstOrNone fs (source_offer fs) (FromFile fs) (source_offer_iff fs)
            (glob_all fs sources)))
  ]
    where
      usable :
          (o : Option Bytes)
          → is_usable fs o ≡ true
          → (content : Bytes) × (o ≡ some content) × HasServer fs content
      usable none h = absurd (cc)
      usable (some content) h =
          (content, refl, (looks_like_resolv_conf_iff fs content).0 (ground arith))

      last :
          Unusable path
          → All (Unwritten fs (FromFile fs)) (glob_all fs sources)
          → All (Unwritten fs (FromState fs)) (glob_all fs states)
          → Origin path sources states
              (if fs.write fallback_resolv_conf then wrote fallback_resolv_conf else not_written)
      last bad no_source no_state = elim (Bool-cases (fs.write fallback_resolv_conf)) [
        | inl w ↦ rw w (fell_back bad no_source no_state w)
        | inr w ↦ rw w (gave_up bad no_source no_state w)
      ]

      from_states :
          Unusable path
          → All (Unwritten fs (FromFile fs)) (glob_all fs sources)
          → (o : Option Bytes) → FirstOrNone fs (FromState fs) (glob_all fs states) o
          → Origin path sources states (elim o [
            | some r ↦ wrote r
            | none ↦
                if fs.write fallback_resolv_conf then wrote fallback_resolv_conf else not_written
          ])
      from_states bad no_source none f = last bad no_source f
      from_states bad no_source (some r) f = rendered r bad no_source f

      from_sources :
          Unusable path
          → (o : Option Bytes) → FirstOrNone fs (FromFile fs) (glob_all fs sources) o
          → Origin path sources states (elim o [
            | some c ↦ wrote c
            | none ↦ elim (first_written fs (state_offer fs) (glob_all fs states)) [
              | some r ↦ wrote r
              | none ↦
                  if fs.write fallback_resolv_conf then wrote fallback_resolv_conf else not_written
            ]
          ])
      from_sources bad (some c) f = copied c bad f
      from_sources bad none f =
          from_states bad f (first_written fs (state_offer fs) (glob_all fs states)) (
            first_written-FirstOrNone fs (state_offer fs) (FromState fs) (state_offer_iff fs)
              (glob_all fs states))
