-- ===== src/Session/Pairer.antt =====
-- mobile/pair.go: one attempt of the phone's side of a pairing. The connection is closed on the way out.
use synctang.Action.{Action, ◌>>=◌, lift}
use synctang.Enrol.Entries.{is_empty}
use synctang.Network.Config.{NetworkConfig}
use synctang.Pair.{pair_proof}
use synctang.Pair.Messages.{
  Base32, PairChallenge, PairRequest, PairResult, pair_refused_code_mismatch, pair_refused_declined,
}
use synctang.Progress.{Progress, advance, begin_attempt, won, first_stage}
use synctang.Progress.Stages.{apply_all}
use synctang.Session.Failure.{
  Error, plain, because, with_kind, with_kind_detail, failure_pair_code_mismatch,
  failure_pair_declined, failure_pair_refused, failure_pair_not_confirmed, dialling,
  refused_by_machine, not_confirmed, wire_failed,
}
use synctang.Session.Phone.{Phone}
use synctang.Wire.{WireError, read_message, write_message}
use synctang.Prelude.{
  ℕ, Bool, Bytes, bytes_eq, Option, Result, ok, err, or_err, map_err, if◌then◌else◌,
}

abbrev pub stage_sending_proof : ℕ
stage_sending_proof = 10

abbrev pub stage_waiting_for_operator : ℕ
stage_waiting_for_operator = 11

abbrev pub stage_enrolled : ℕ
stage_enrolled = 12

-- What the pairing uses besides a phone's session: the codec of its messages, encoding/hex and the MAC.
-- `operator_expires` says whether the wait for the operator ends before an answer comes.
pub record PairCodec (ph : Phone) : Type 0 where
  pub base32 : Base32
  pub decode_hex : Bytes → Option Bytes
  pub hmac : Bytes → Bytes → Bytes
  pub device_id : ph.Cert → Bytes
  pub challenge_of : Bytes → Option PairChallenge
  pub request_to : PairRequest → Option Bytes
  pub result_of : Bytes → Option PairResult
  pub operator_expires : ph.Conn → ph.World → Bool

pub record Pairer (World : Type 0) : Type 0 where
  pub cancel : Bool
  pub cancelled : Bool
  pub failure : ℕ × Bytes
  pub progress : Progress
  pub network : NetworkConfig
  pub world : World

-- What the caller of `Pair` gives, as it is used.
pub record PairInput (Cert : Type 0) : Type 0 where
  pub cert : Cert
  pub machine_id : Bytes
  pub self_id : Bytes
  pub secret : Bytes
  pub public_key : Bytes
  pub name : Bytes
  pub direct_addr : Bytes

-- How an attempt fails: with an error that is worth another attempt, by the machine's refusal
-- (`pairRefused`), or because the operator has not answered.
pub data AttemptError : Type 0 where
  lost : Error → AttemptError
  machine_refused : Bytes → AttemptError
  operator_timeout : AttemptError

-- `pairRefused.withKind`
unfoldable pub refused_with_kind : Bytes → Error
refused_with_kind reason =
    if bytes_eq reason pair_refused_code_mismatch
    then with_kind failure_pair_code_mismatch (plain refused_by_machine)
    else if bytes_eq reason pair_refused_declined
    then with_kind failure_pair_declined (plain refused_by_machine)
    else with_kind_detail failure_pair_refused reason (plain refused_by_machine)

abbrev pub err_operator_timeout : Error
err_operator_timeout = with_kind failure_pair_not_confirmed (plain not_confirmed)

module _ (ph : Phone) (codec : PairCodec ph) where
  abbrev pub PairerOf : Type 0
  PairerOf = Pairer ph.World

  abbrev pub Attempt : Type 0 → Type 0
  Attempt A = Action PairerOf AttemptError A

  abbrev pub reporting : (Progress → Progress) → Attempt (Unit {0})
  reporting f p = (ok tt, record p { progress = f p.progress })

  abbrev pub lost_wire : WireError → AttemptError
  lost_wire e = lost (because (because (plain (wire_failed e))))

  unfoldable pub dial_pairing : PairInput ph.Cert → Attempt ph.Conn
  dial_pairing input p =
      let (c, reports, w) =
        ph.dial input.cert input.machine_id input.direct_addr p.network p.world in
      (
        or_err (lost (because (plain dialling))) c,
        record p { progress = apply_all reports p.progress; world = w },
      )

  -- The budget of the dial closes the connection under the read that follows.
  unfoldable pub read_challenge : ph.Conn → Attempt PairChallenge
  read_challenge c p =
      let w = if ph.ends_under c p.world then ph.close c p.world else p.world in
      let (r, rest) = read_message codec.challenge_of (ph.pull c w) in
      (map_err lost_wire r, record p { world = ph.consumed c rest w })

  unfoldable pub send_request : ph.Conn → PairRequest → Attempt (Unit {0})
  send_request c req p =
      let (r, w) =
        write_message codec.request_to (record { State = ph.World; write = ph.write c }) req
          p.world in
      (map_err lost_wire r, record p { world = w })

  -- A read that fails once the wait for the operator is over has failed because of it, unless the
  -- pairing was cancelled, which the loop looks at first.
  unfoldable pub read_result : ph.Conn → Attempt PairResult
  read_result c p =
      let late = codec.operator_expires c p.world in
      let w = if late then ph.close c p.world else p.world in
      let (r, rest) = read_message codec.result_of (ph.pull c w) in
      (
        map_err (λ e. if late then operator_timeout else lost_wire e) r,
        record p { world = ph.consumed c rest w },
      )

  unfoldable pub check_result : PairResult → Result AttemptError (Unit {0})
  check_result result = if result.succeeded then ok tt else err (machine_refused result.error)

  abbrev pub proof_of : PairInput ph.Cert → PairChallenge → PairRequest
  proof_of input challenge = record {
    pub_key = input.public_key;
    name = input.name;
    proof =
        pair_proof codec.hmac input.secret input.machine_id input.self_id input.public_key
          challenge.nonce;
  }

  -- The conversation on a connection.
  unfoldable pub converse : PairInput ph.Cert → ph.Conn → Attempt (Unit {0})
  unfolding read_challenge send_request read_result check_result
  converse input c = do
    challenge ← read_challenge c
    sending ← reporting (advance stage_sending_proof)
    sent ← send_request c (proof_of input challenge)
    waiting ← reporting (advance stage_waiting_for_operator)
    result ← read_result c
    agreed ← lift (λ e. e) (check_result result)
    reporting (advance stage_enrolled)

  -- The deferred `conn.Close`.
  abbrev pub closing : ph.Conn → Attempt (Unit {0}) → Attempt (Unit {0})
  closing c m p = let (r, p') = m p in (r, record p' { world = ph.close c p'.world })

  unfoldable pub pair_once : PairInput ph.Cert → Attempt (Unit {0})
  unfolding dial_pairing converse
  pair_once input = do
    begun ← reporting (begin_attempt (first_stage input.direct_addr))
    c ← dial_pairing input
    way ← reporting (λ p. if is_empty input.direct_addr then p else won 0 p)
    closing c (converse input c)
