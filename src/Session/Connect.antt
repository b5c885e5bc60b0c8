-- ===== src/Session/Connect.antt =====
-- mobile/mobile.go: `Connect`, its attempts, and `Cancel`. The loop runs on fuel; `none` stands for fuel
-- that ran out.
use synctang.Action.{◌>>=◌, pure, lift, raise_if}
use synctang.Enrol.Entries.{is_empty}
use synctang.Enrol.Host.{is_some}
use synctang.Label.{safe_label}
use synctang.Mr1.Finish.{validate_challenge_point}
use synctang.Progress.{Progress, advance, begin_attempt, won, first_stage}
use synctang.Progress.Stages.{apply_all}
use synctang.Session.Failure.{
  Error, plain, because, with_kind, err_cancelled, failure_unreachable, failure_hung_up,
  failure_protocol, already_connected, no_machine_id, empty_seed, deriving_identity, dialling,
  no_challenge_point, protocol_failed,
}
use synctang.Session.Phone.{
  Phone, HostOf, Call, SessionOf, change, asks, receive, or_close, recorded,
}
use synctang.Wire.{Hello, RecoverRequest}
use synctang.Prelude.{
  ℕ, zero, suc, Bool, true, false, not, ◌&&◌, ◌||◌, Bytes, Option, none, some, Result, ok, err,
  or_err, map_err, if◌then◌else◌,
}

abbrev pub stage_starting : ℕ
stage_starting = 1

abbrev pub stage_waiting_for_request : ℕ
stage_waiting_for_request = 5

abbrev pub stage_request_ready : ℕ
stage_request_ready = 6

abbrev pub machine_name_max_runes : ℕ
machine_name_max_runes = 64

module _ (ph : Phone) where
  unfoldable pub cert_for_seed : Bytes → Result Error ph.Cert
  cert_for_seed seed =
      if is_empty (ph.trim_space seed)
      then err (plain empty_seed)
      else or_err (because (plain deriving_identity)) (ph.generate_cert seed)

  abbrev pub progressing : (Progress → Progress) → Call ph (Unit {0})
  progressing f = change ph (λ s. record s { progress = f s.progress })

  abbrev pub connect_to : ph.Conn → SessionOf ph → SessionOf ph
  connect_to c s = record s { conn = some c }

  abbrev pub name_machine : Hello → SessionOf ph → SessionOf ph
  name_machine hello s = record s {
    machine_name = safe_label ph.unicode hello.name machine_name_max_runes;
  }

  abbrev pub keep_request : RecoverRequest → SessionOf ph → SessionOf ph
  keep_request req s = record s { kid = req.kid; x = req.x }

  -- A direct dial is not raced, so it is recorded here as won.
  abbrev pub way_taken : Bytes → Progress → Progress
  way_taken direct p = if is_empty direct then p else won 0 p

  -- `armCancel`, of a cancel function or of nil.
  unfoldable pub arm_cancel : Bool → HostOf ph → Bool × HostOf ph
  arm_cancel cancel h =
      if cancel && h.session.cancelled
      then (false, h)
      else (true, record h { session = record h.session { cancel = cancel } })

  -- `Cancel`, as it is called on the thread of the model.
  unfoldable pub cancel_session : HostOf ph → HostOf ph
  cancel_session h = record h { session = record h.session { cancelled = true } }

  -- `isCancelled`, with what other threads have called in the meantime.
  unfoldable pub is_cancelled : HostOf ph → Bool × HostOf ph
  is_cancelled h =
      let (b, w) = ph.interrupted h.world in
      let c = h.session.cancelled || b in
      (c, record { session = record h.session { cancelled = c }; world = w })

  -- The context of the attempt closes the connection under its reads.
  unfoldable pub watch_context : ph.Conn → Call ph (Unit {0})
  watch_context c h =
      (ok tt, record h { world = if ph.ends_under c h.world then ph.close c h.world else h.world })

  unfoldable pub dial_machine : ph.Cert → Call ph ph.Conn
  dial_machine cert h =
      let s = h.session in
      let (c, reports, w) = ph.dial cert s.machine_id s.direct_addr s.network h.world in
      (
        or_err (because (plain dialling)) c,
        record { session = record s { progress = apply_all reports s.progress }; world = w },
      )

  -- The request as it is accepted.
  unfoldable pub check_request : RecoverRequest → Result Error (Unit {0})
  check_request req =
      if is_empty req.x
      then err (with_kind failure_protocol (plain no_challenge_point))
      else map_err (λ e. because (plain (protocol_failed e)))
          (validate_challenge_point ph.group req.x)

  unfoldable pub read_recover_request : ph.Conn → Call ph (Unit {0})
  unfolding check_request
  read_recover_request c = do
    req ← or_close ph (λ e. with_kind failure_hung_up (because e)) (receive ph ph.request_of c)
    valid ← or_close ph (λ e. e) (lift (λ e. e) (check_request req))
    kept ← change ph (keep_request req)
    progressing (advance stage_request_ready)

  -- Without the clock reading of `markConnected`.
  unfoldable pub connect_once : ph.Cert → Call ph (Unit {0})
  unfolding dial_machine watch_context read_recover_request
  connect_once cert = do
    direct ← asks ph (λ s. s.direct_addr)
    begun ← progressing (begin_attempt (first_stage direct))
    c ← dial_machine cert
    way ← progressing (way_taken direct)
    reached ← progressing (advance stage_waiting_for_request)
    connected ← change ph (connect_to c)
    watched ← watch_context c
    hello ← or_close ph because (receive ph ph.hello_of c)
    named ←
        change ph
          (λ s. record s { machine_name = safe_label ph.unicode hello.name machine_name_max_runes })
    read_recover_request c

  -- What follows a failed attempt: the error that ends the loop, if it ends.
  unfoldable pub after_failure : Error → HostOf ph → Option Error × HostOf ph
  unfolding is_cancelled
  after_failure e h =
      let (c, h1) = is_cancelled h in
      let (done, w) = ph.deadline h1.world in
      let h2 = record h1 { world = w } in
      let (c', h3) = is_cancelled h2 in
      if c
      then (some err_cancelled, h1)
      else if not done
      then (none, h2)
      else (some (if c' then err_cancelled else with_kind failure_unreachable (because e)), h3)

  unfoldable pub connect_loop :
      ℕ → ph.Cert → HostOf ph → Option (Result Error (Unit {0}) × HostOf ph)
  unfolding connect_once after_failure
  connect_loop zero cert h = none
  connect_loop (suc fuel) cert h =
      let (r, h1) = connect_once cert h in
      elim r [
        | ok u ↦ some (ok tt, h1)
        | err e ↦
            let (stop, h2) = after_failure e h1 in
            elim stop [ some e' ↦ some (err e', h2) | none ↦ connect_loop fuel cert h2 ]
      ]

  unfoldable pub arm : Call ph Bool
  unfolding arm_cancel
  arm h = let (a, h') = arm_cancel true h in (ok a, h')

  -- The part of `Connect` before its loop.
  unfoldable pub prepare : Call ph ph.Cert
  unfolding cert_for_seed arm
  prepare = do
    s ← asks ph (λ s. s)
    fresh ← raise_if (is_some s.conn) (plain already_connected)
    named ← raise_if (is_empty s.machine_id) (plain no_machine_id)
    cert ← lift (λ e. e) (cert_for_seed s.seed)
    starting ← progressing (advance stage_starting)
    armed ← arm
    refused ← raise_if (not armed) err_cancelled
    pure cert

  -- The two deferred calls: `armCancel(nil)` and the record of the outcome.
  abbrev pub left : Result Error (Unit {0}) × HostOf ph → Result Error (Unit {0}) × HostOf ph
  left (r, h) = recorded ph (λ h'. (r, (arm_cancel false h').1)) h

  unfoldable pub connect : ℕ → HostOf ph → Option (Result Error (Unit {0}) × HostOf ph)
  unfolding prepare connect_loop
  connect fuel h =
      let (r, h1) = prepare h in
      elim r [
        | err e ↦ some (recorded ph (λ h'. (err e, h')) h1)
        | ok cert ↦ elim (connect_loop fuel cert h1) [ none ↦ none | some out ↦ some (left out) ]
      ]
