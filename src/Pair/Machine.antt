-- ===== src/Pair/Machine.antt =====
-- cmd/synctang-unlocker/pair.go: `runPairOnce`, the machine's side of one pairing. The connection, the
-- operator's console and the MAC are parameters; the time limits, the log and the notices are left out.
-- The window records what the conversation has shown so far.
use synctang.Action.{Action, ◌>>=◌}
use synctang.Enrol.Changes.{enrol_recipient, replace_recipient}
use synctang.Enrol.Host.{System, EnrolError, Run}
use synctang.Enrol.Kept.{HostOf}
use synctang.Enrol.Reading.{
  ExistingRecipient, EnrolPlan, plan_add, plan_already, plan_replace, plan_enrolment,
}
use synctang.Pair.{pair_proof}
use synctang.Pair.Messages.{
  PairChallenge, PairRequest, PairResult, pair_refused_code_mismatch, pair_refused_invalid_key,
  pair_refused_declined, pair_refused_enrol_failed,
}
use synctang.Prelude.{
  ℕ, zero, suc, Bool, true, false, not, List, [], ◌∷◌, Bytes, bytes_eq, Option, none, some, ok, err,
  or_err, if◌then◌else◌,
}

abbrev pub pair_nonce_len : ℕ
pair_nonce_len = 32

-- The Boolean of a call is its success, that of a question its answer.
pub record Desk : Type 1 where
  pub system : System
  pub Net : Type 0
  pub hmac : Bytes → Bytes → Bytes
  pub machine_id : Bytes
  pub machine_name : Bytes
  pub device : Bytes
  pub existing_passphrase : Bytes
  pub secret : Bytes
  -- a peer that has completed the handshake, whoever it is
  pub listen : Net → Option Bytes × Net
  pub send_challenge : PairChallenge → Net → Bool × Net
  pub receive_request : Net → Option PairRequest × Net
  pub send_result : PairResult → Net → Bool × Net
  pub wait_for_close : Net → Net
  pub confirm : Option (Bytes → Bytes → Net → Bool × Net)
  pub confirm_replace : Option (Bytes → ExistingRecipient → Bytes → Net → Bool × Net)

pub data PairError : Type 0 where
  waiting generating_nonce sending_challenge reading_request : PairError
  refused : Bytes → PairError
  planning_failed replacing_failed enrolling_failed : EnrolError → PairError
  telling_failed : PairError

pub record Window (HostState Net : Type 0) : Type 0 where
  pub host : HostState
  pub net : Net
  pub peer : Option Bytes
  pub nonce : Bytes
  pub request : Option PairRequest
  -- the operator's answer
  pub said : Option Bool
  -- the results that were sent, the latest first
  pub results : List PairResult

abbrev pub success : PairResult
success = record { succeeded = true; error = [] }

abbrev pub refusal : Bytes → PairResult
refusal reason = record { succeeded = false; error = reason }

module _ (d : Desk) where
  abbrev pub WindowOf : Type 0
  WindowOf = Window (HostOf d.system) d.Net

  abbrev pub Pairing : Type 0 → Type 0
  Pairing A = Action WindowOf PairError A

  -- Before anything has been said.
  abbrev pub open_window : HostOf d.system → d.Net → WindowOf
  open_window h n = record {
    host = h;
    net = n;
    peer = none;
    nonce = [];
    request = none;
    said = none;
    results = [];
  }

  unfoldable pub accept_peer : Pairing Bytes
  accept_peer w = let (p, n) = d.listen w.net in (or_err waiting p, record w { net = n; peer = p })

  unfoldable pub draw_nonce : Pairing Bytes
  draw_nonce w =
      let (r, src) = d.system.rand_read pair_nonce_len w.host.source in
      let h = record w.host { source = src } in
      elim r [
        | none ↦ (err generating_nonce, record w { host = h })
        | some nonce ↦ (ok nonce, record w { host = h; nonce = nonce })
      ]

  unfoldable pub challenge_peer : Bytes → Pairing (Unit {0})
  challenge_peer nonce w =
      let (sent, n) = d.send_challenge (record { nonce = nonce; name = d.machine_name }) w.net in
      (if sent then ok tt else err sending_challenge, record w { net = n })

  unfoldable pub read_request : Pairing PairRequest
  read_request w =
      let (r, n) = d.receive_request w.net in
      (or_err reading_request r, record w { net = n; request = r })

  -- A result, and whether it could be sent.
  unfoldable pub tell : PairResult → WindowOf → Bool × WindowOf
  tell result w =
      let (sent, n) = d.send_result result w.net in
      (sent, record w { net = n; results = result ∷ w.results })

  abbrev pub linger : WindowOf → WindowOf
  linger w = record w { net = d.wait_for_close w.net }

  -- A best-effort result, then the error.
  unfoldable pub fail_with : Bytes → PairError → {A : Type 0} → Pairing A
  unfolding tell
  fail_with reason e w = (err e, linger (tell (refusal reason) w).1)

  unfoldable pub refuse_pairing : Bytes → Pairing (Unit {0})
  unfolding fail_with
  refuse_pairing reason = fail_with reason (refused reason)

  unfoldable pub tell_success : Pairing (Unit {0})
  unfolding tell
  tell_success w =
      let (sent, w') = tell success w in
      if sent then (ok tt, linger w') else (err telling_failed, w')

  -- A call on the volume; its failure is told to the key holder.
  unfoldable pub on_volume : {A : Type 0} → (EnrolError → PairError) → Run d.system A → Pairing A
  unfolding fail_with
  on_volume f m w =
      let (r, h) = m w.host in
      let w' = record w { host = h } in
      elim r [ ok a ↦ (ok a, w') | err e ↦ fail_with pair_refused_enrol_failed (f e) w' ]

  -- `confirm`: nobody to ask means yes.
  unfoldable pub ask_confirm : Bytes → Bytes → WindowOf → Bool × WindowOf
  ask_confirm peer_id pub_key w = elim d.confirm [
    | none ↦ (true, w)
    | some ask ↦
        let (agreed, n) = ask peer_id pub_key w.net in
        (agreed, record w { net = n; said = some agreed })
  ]

  -- `confirmReplace`: nobody to ask means no.
  unfoldable pub ask_replace : Bytes → ExistingRecipient → Bytes → WindowOf → Bool × WindowOf
  ask_replace peer_id existing new_kid w = elim d.confirm_replace [
    | none ↦ (false, w)
    | some ask ↦
        let (agreed, n) = ask peer_id existing new_kid w.net in
        (agreed, record w { net = n; said = some agreed })
  ]

  -- One branch or the other, by an answer.
  abbrev pub asked : (WindowOf → Bool × WindowOf) → Pairing (Unit {0}) → Pairing (Unit {0})
  asked question go_on w =
      let (agreed, w') = question w in
      if agreed then go_on w' else refuse_pairing pair_refused_declined w'

  unfoldable pub enrol_peer : Bytes → PairRequest → Pairing (Unit {0})
  unfolding on_volume tell_success
  enrol_peer peer_id req = do
    enrolled ← on_volume enrolling_failed (
        enrol_recipient d.system d.device d.existing_passphrase req.pub_key d.machine_name
          d.machine_id peer_id)
    tell_success

  unfoldable pub replace_peer : Bytes → PairRequest → ExistingRecipient → Pairing (Unit {0})
  unfolding on_volume tell_success
  replace_peer peer_id req existing = do
    replaced ← on_volume replacing_failed (
        replace_recipient d.system d.device d.existing_passphrase req.pub_key peer_id peer_id
          existing.keyslot)
    tell_success

  unfoldable pub follow_plan : Bytes → PairRequest → EnrolPlan → Pairing (Unit {0})
  unfolding ask_confirm ask_replace refuse_pairing enrol_peer replace_peer tell_success
  follow_plan peer_id req (plan_already existing) = tell_success
  follow_plan peer_id req (plan_replace existing) =
      asked (ask_replace peer_id existing (d.system.crypto.sha256 req.pub_key))
        (replace_peer peer_id req existing)
  follow_plan peer_id req plan_add =
      asked (ask_confirm peer_id req.pub_key) (enrol_peer peer_id req)

  -- `hmac.Equal` with the proof that the code asks for.
  unfoldable pub is_proven : Bytes → Bytes → PairRequest → Bool
  is_proven peer_id nonce req =
      bytes_eq (pair_proof d.hmac d.secret d.machine_id peer_id req.pub_key nonce) req.proof

  unfoldable pub decide : Bytes → Bytes → PairRequest → Pairing (Unit {0})
  unfolding is_proven refuse_pairing follow_plan on_volume
  decide peer_id nonce req =
      if not (is_proven peer_id nonce req)
      then refuse_pairing pair_refused_code_mismatch
      else elim (d.system.group.point_to_x req.pub_key) [
        | err e ↦ refuse_pairing pair_refused_invalid_key
        | ok x ↦
            on_volume planning_failed (plan_enrolment d.system d.device req.pub_key peer_id)
            >>= follow_plan peer_id req
      ]

  unfoldable pub run_pair_once : Pairing (Unit {0})
  unfolding accept_peer draw_nonce challenge_peer read_request decide
  run_pair_once = do
    peer_id ← accept_peer
    nonce ← draw_nonce
    challenged ← challenge_peer nonce
    req ← read_request
    decide peer_id nonce req

  -- The loop of `runPair`: a new conversation after each failure, until the time is over, which `over`
  -- says. It runs on fuel; `none` stands for fuel that ran out.
  unfoldable pub pair_loop :
      (d.Net → Bool × d.Net) → ℕ → HostOf d.system → d.Net → Option (Bool × HostOf d.system)
  unfolding run_pair_once
  pair_loop over zero h n = none
  pair_loop over (suc fuel) h n =
      let (r, w) = run_pair_once (open_window h n) in
      let (done, n') = over w.net in
      elim r [
        | ok u ↦ some (true, w.host)
        | err e ↦ elim done [ true ↦ some (false, w.host) | false ↦ pair_loop over fuel w.host n' ]
      ]
