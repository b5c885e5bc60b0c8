-- ===== src/Session/Pairing.antt =====
-- The loop of a pairing, and its end (`Pair`, mobile/pair.go).
use synctang.Session.Pairer.{
  PairCodec, PairInput, PairerOf, AttemptError, lost, machine_refused, operator_timeout, pair_once,
  refused_with_kind, err_operator_timeout,
}
use synctang.Enrol.Entries.{is_empty}
use synctang.Pair.Messages.{decode_pairing_secret}
use synctang.Progress.{advance}
use synctang.Session.Connect.{stage_starting}
use synctang.Session.Failure.{
  Error, plain, because, with_kind, kind_of, err_cancelled, failure_unreachable,
  failure_bad_pairing_code, bad_pairing_code, bad_public_key, deriving_identity, empty_seed,
}
use synctang.Session.Phone.{Phone}
use synctang.Prelude.{
  ℕ, zero, suc, Bool, true, false, not, ◌||◌, Bytes, Option, none, some, Result, ok, err,
  if◌then◌else◌,
}

module _ (ph : Phone) (codec : PairCodec ph) where
  unfoldable pub pair_cancelled : (PairerOf ph codec) → Bool × (PairerOf ph codec)
  pair_cancelled p =
      let (b, w) = ph.interrupted p.world in
      let c = p.cancelled || b in (c, record p { cancelled = c; world = w })

  -- What follows an attempt that could not be finished, after the first look for a cancellation.
  unfoldable pub after_lost : Error → (PairerOf ph codec) → Option Error × (PairerOf ph codec)
  unfolding pair_cancelled
  after_lost e p =
      let (done, w) = ph.deadline p.world in
      let p1 = record p { world = w } in
      let (c, p2) = pair_cancelled p1 in
      if not done
      then (none, p1)
      else (some (if c then err_cancelled else with_kind failure_unreachable (because e)), p2)

  unfoldable pub after_attempt :
      AttemptError → (PairerOf ph codec) → Option Error × (PairerOf ph codec)
  unfolding pair_cancelled after_lost refused_with_kind
  after_attempt a p =
      let (c, p1) = pair_cancelled p in
      if c then (some err_cancelled, p1) else elim a [
        | machine_refused reason ↦ (some (refused_with_kind reason), p1)
        | operator_timeout ↦ (some err_operator_timeout, p1)
        | lost e ↦ after_lost e p1
      ]

  unfoldable pub pair_attempts :
      ℕ
      → PairInput ph.Cert
      → (PairerOf ph codec)
      → Option (Result Error (Unit {0}) × (PairerOf ph codec))
  unfolding pair_once after_attempt
  pair_attempts zero input p = none
  pair_attempts (suc fuel) input p =
      let (r, p1) = pair_once ph codec input p in
      elim r [
        | ok u ↦ some (ok tt, p1)
        | err e ↦
            let (stop, p2) = after_attempt e p1 in
            elim stop [ some e' ↦ some (err e', p2) | none ↦ pair_attempts fuel input p2 ]
      ]

  -- The checks of `Pair` before anything is dialled. The identity is derived twice, once by
  -- `DeviceIDForSeed`, which refuses an empty seed.
  unfoldable pub pair_input :
      Bytes → Bytes → Bytes → Bytes → Bytes → Bytes → Result Error (PairInput ph.Cert)
  pair_input machine_id pairing_code seed public_key_hex name direct_addr =
      elim (decode_pairing_secret codec.base32 pairing_code) [
        | err e ↦ err (with_kind failure_bad_pairing_code (because (plain bad_pairing_code)))
        | ok secret ↦ elim (codec.decode_hex public_key_hex) [
          | none ↦ err (because (plain bad_public_key))
          | some public_key ↦ elim (ph.generate_cert seed) [
            | none ↦ err (because (plain deriving_identity))
            | some cert ↦
                if is_empty (ph.trim_space seed)
                then err (because (plain empty_seed))
                else ok (record {
                  cert = cert;
                  machine_id = machine_id;
                  self_id = codec.device_id cert;
                  secret = secret;
                  public_key = public_key;
                  name = name;
                  direct_addr = direct_addr;
                })
          ]
        ]
      ]

  abbrev pub finished_pairing :
      Result Error (Unit {0}) × (PairerOf ph codec) → Result Error (Unit {0}) × (PairerOf ph codec)
  finished_pairing (r, p) = (r, record p { cancel = false; failure = kind_of r })

  unfoldable pub pair :
      ℕ
      → Result Error (PairInput ph.Cert)
      → (PairerOf ph codec)
      → Option (Result Error (Unit {0}) × (PairerOf ph codec))
  unfolding pair_attempts kind_of
  pair fuel (err e) p = some (err e, record p { failure = kind_of {A = Unit {0}} (err e) })
  pair fuel (ok input) p =
      if p.cancelled
      then some
          (err err_cancelled, record p { failure = kind_of {A = Unit {0}} (err err_cancelled) })
      else elim (pair_attempts fuel input
          (record p { cancel = true; progress = advance stage_starting p.progress })) [
            | none ↦ none
            | some out ↦ some (finished_pairing out)
          ]
