-- ===== src/Resolver/Offers.antt =====
-- What the candidate files offer, and which offer is written (cmd/synctang-unlocker/resolver.go).
use synctang.Prelude.{
  ◌≡◌, ◌≢◌, ◌↔◌, refl, sym, ap, Bool-cases, Option-cases, true, false, List, [], ◌∷◌, ◌++◌, Bytes,
  All, Option, none, some, inl, inr, arith, if◌then◌else◌,
}
use synctang.Enrol.Entries.{is_empty}
use synctang.Resolver.{
  Files, looks_like_resolv_conf, resolv_conf_from_networkd_state, source_offer, state_offer,
  first_written,
}
use synctang.Resolver.Servers.{HasServer, looks_like_resolv_conf_iff}

module _ (fs : Files) where
  -- What a resolver file offers: its own text, if that has a name server.
  abbrev pub FromFile : Bytes → Bytes → Type 0
  FromFile candidate content = (fs.read candidate ≡ some content) × HasServer fs content

  -- What a state file of systemd-networkd offers: the name servers that it lists, if any.
  abbrev pub FromState : Bytes → Bytes → Type 0
  FromState candidate content =
      (state : Bytes) × (fs.read candidate ≡ some state)
      × (resolv_conf_from_networkd_state fs state ≡ content)
      × (content ≢ [])

  pub source_offer_iff :
      (candidate content : Bytes)
      → (source_offer fs candidate ≡ some content) ↔ FromFile candidate content
  unfolding source_offer
  source_offer_iff candidate content = (to_file, of_file)
    where
      to_file : source_offer fs candidate ≡ some content → FromFile candidate content
      to_file h = elim (Option-cases (fs.read candidate)) [
        | inl e ↦ absurd (ground arith)
        | inr (text, e) ↦ elim (Bool-cases (looks_like_resolv_conf fs text)) [
          | inl good ↦
              let same : text ≡ content = ground arith in
              (ground arith, (looks_like_resolv_conf_iff fs content).0 (rw same at good))
          | inr bad ↦ absurd (ground arith)
        ]
      ]

      of_file : FromFile candidate content → source_offer fs candidate ≡ some content
      of_file (e, has) = let good = (looks_like_resolv_conf_iff fs content).1 has in ground arith

  pub state_offer_iff :
      (candidate content : Bytes)
      → (state_offer fs candidate ≡ some content) ↔ FromState candidate content
  unfolding state_offer
  state_offer_iff candidate content = (to_state, of_state)
    where
      to_state : state_offer fs candidate ≡ some content → FromState candidate content
      to_state h = elim (Option-cases (fs.read candidate)) [
        | inl e ↦ absurd (ground arith)
        | inr (state, e) ↦ elim (Bool-cases (is_empty (resolv_conf_from_networkd_state fs state))) [
          | inl nothing ↦ absurd (ground arith)
          | inr some_text ↦ (state, e, ground arith, λ empty. ground arith)
        ]
      ]

      of_state : FromState candidate content → state_offer fs candidate ≡ some content
      of_state (state, e, same, some_text) =
          rw (e, state_offer) (spelled (resolv_conf_from_networkd_state fs state) same)
        where
          spelled :
              (text : Bytes)
              → text ≡ content
              → (if is_empty text then none else some text) ≡ some content
          spelled [] same = absurd (some_text (sym same))
          spelled (c ∷ text) same = ground arith

  -- Nothing that the candidate offers can be written.
  abbrev pub Unwritten : (Bytes → Bytes → Type 0) → Bytes → Type 0
  Unwritten Offers candidate = (x : Bytes) → Offers candidate x → fs.write x ≡ false

  -- The content is written, and comes from the first candidate whose offer can be.
  pub record FirstOf (Offers : Bytes → Bytes → Type 0) (candidates : List Bytes) (content : Bytes)
      : Type 0 where
    pub before : List Bytes
    pub source : Bytes
    pub after : List Bytes
    pub splits : candidates ≡ before ++ (source ∷ after)
    pub offered : Offers source content
    pub written : fs.write content ≡ true
    pub none_before : All (Unwritten Offers) before

  abbrev pub FirstOrNone : (Bytes → Bytes → Type 0) → List Bytes → Option Bytes → Type 0
  FirstOrNone Offers candidates none = All (Unwritten Offers) candidates
  FirstOrNone Offers candidates (some content) = FirstOf Offers candidates content

  module _ (offer : Bytes → Option Bytes) (Offers : Bytes → Bytes → Type 0)
      (offers_iff : (c x : Bytes) → (offer c ≡ some x) ↔ Offers c x) where
    skip-FirstOrNone :
        (c : Bytes) (cs : List Bytes) (o : Option Bytes)
        → Unwritten Offers c
        → FirstOrNone Offers cs o
        → FirstOrNone Offers (c ∷ cs) o
    skip-FirstOrNone c cs none u f = (u, f)
    skip-FirstOrNone c cs (some x) u f = record {
      before = c ∷ f.before;
      source = f.source;
      after = f.after;
      splits = ap (λ (t : List Bytes). c ∷ t) f.splits;
      offered = f.offered;
      written = f.written;
      none_before = (u, f.none_before);
    }

    pub first_written-FirstOrNone :
        (cs : List Bytes) → FirstOrNone Offers cs (first_written fs offer cs)
    unfolding first_written
    first_written-FirstOrNone [] = tt
    first_written-FirstOrNone (c ∷ cs) =
        tried (offer c) refl (first_written fs offer cs) (first_written-FirstOrNone cs)
      where
        tried :
            (o : Option Bytes)
            → offer c ≡ o
            → (later : Option Bytes) → FirstOrNone Offers cs later
            → FirstOrNone Offers
                (c ∷ cs)
                (elim o [ none ↦ later | some x ↦ if fs.write x then some x else later ])
        tried none e later f =
            skip-FirstOrNone c cs later
              (λ x h. let k = (offers_iff c x).1 h in absurd (ground arith)) f
        tried (some x) e later f = elim (Bool-cases (fs.write x)) [
          | inl w ↦ rw w (record {
            before = [];
            source = c;
            after = cs;
            splits = refl;
            offered = (offers_iff c x).0 e;
            written = w;
            none_before = tt;
          })
          | inr w ↦
              rw w (
                skip-FirstOrNone c cs later (λ y h. let k = (offers_iff c y).1 h in ground arith) f)
        ]
