-- ===== src/Session/Answer.antt =====
-- mobile/mobile.go: the answer and its verdict, `Decline`, `Close` and the setters of a session.
use synctang.Action.{◌>>=◌, lift}
use synctang.Enrol.Entries.{is_empty}
use synctang.Label.{safe_label}
use synctang.Mr1.Crypto.{wipe}
use synctang.Mr1.Finish.{validate_challenge_point}
use synctang.Network.Config.{ConfigError, no_settings, parse_dialer_network_config}
use synctang.Progress.{advance}
use synctang.Session.Connect.{progressing, cancel_session}
use synctang.Session.Failure.{
  Error, plain, because, with_kind, with_kind_detail, err_no_reply, failure_key_mismatch,
  failure_protocol, failure_hung_up, failure_no_reply, failure_outcome_unknown,
  failure_answer_rejected, no_request, not_connected, already_answered, not_a_coordinate,
  answer_rejected, protocol_failed,
}
use synctang.Session.Key.{check_key_pair, x_only_answer, coord_len}
use synctang.Session.Phone.{
  Phone, HostOf, Call, SessionOf, change, asks, receive, send, close_locked, recorded, renamed,
}
use synctang.Text.{ℤ, pos, negsuc}
use synctang.Wire.{RecoverResponse, RecoverResult}
use synctang.Prelude.{
  ℕ, Bool, zero, suc, true, false, not, ◌==◌, [], Bytes, codes, length, none, some, Result, ok, err,
  or_err, map_err, if◌then◌else◌,
}

abbrev pub stage_sending_answer : ℕ
stage_sending_answer = 7

abbrev pub stage_waiting_for_verdict : ℕ
stage_waiting_for_verdict = 8

abbrev pub stage_unlocked : ℕ
stage_unlocked = 9

abbrev pub machine_error_max_runes : ℕ
machine_error_max_runes = 200

abbrev pub default_timeout_seconds : ℕ
default_timeout_seconds = 60

abbrev pub x_only_response : Bytes → RecoverResponse
x_only_response x_only = record { y = []; x_only = x_only; error = [] }

abbrev pub decline_response : Bytes → RecoverResponse
decline_response reason = record {
  y = [];
  x_only = [];
  error = if is_empty reason then codes "declined by the key holder" else reason;
}

module _ (ph : Phone) where
  -- `withReplyTimeoutLocked` around the one read that is made under it.
  unfoldable pub within_reply_timeout : ph.Conn → Call ph RecoverResult
  within_reply_timeout c h =
      let fires = ph.reply_expires c h.world in
      let h1 = record h { world = if fires then ph.close c h.world else h.world } in
      let (r, h2) = receive ph ph.result_of c h1 in
      (map_err (λ e. if fires then with_kind failure_no_reply (because err_no_reply) else e) r, h2)

  -- What the machine says of the answer.
  unfoldable pub use_verdict : RecoverResult → Result Error (Unit {0})
  use_verdict result =
      if result.succeeded
      then ok tt
      else let reason = safe_label ph.unicode result.error machine_error_max_runes in
        err (with_kind_detail failure_answer_rejected reason (plain (answer_rejected reason)))

  -- The tests before anything is sent, with the connection that passes them.
  unfoldable pub may_answer : Bytes → SessionOf ph → Result Error ph.Conn
  may_answer x_only s = elim s.conn [
    | none ↦ err (plain not_connected)
    | some c ↦
        if is_empty s.x
        then err (plain no_request)
        else elim (validate_challenge_point ph.group s.x) [
          | err e ↦ err (with_kind failure_protocol (because (plain (protocol_failed e))))
          | ok u ↦
              if s.answered
              then err (plain already_answered)
              else if not (length x_only == coord_len)
              then err (plain (not_a_coordinate (length x_only)))
              else ok c
        ]
  ]

  unfoldable pub send_answer : Bytes → ph.Conn → Call ph (Unit {0})
  unfolding within_reply_timeout use_verdict
  send_answer x_only c = do
    sending ← progressing ph (advance stage_sending_answer)
    sent ←
        renamed ph (λ e. with_kind failure_hung_up (because e)) (send ph (x_only_response x_only) c)
    answered ← change ph (λ s. record s { answered = true })
    waiting ← progressing ph (advance stage_waiting_for_verdict)
    result ←
        renamed ph (λ e. with_kind failure_outcome_unknown (because e)) (within_reply_timeout c)
    good ← lift (λ e. e) (use_verdict result)
    progressing ph (advance stage_unlocked)

  unfoldable pub answer_x_only : Bytes → Call ph (Unit {0})
  unfolding may_answer send_answer
  answer_x_only x_only =
      recorded ph
        (do s ← asks ph (λ s. s); c ← lift (λ e. e) (may_answer x_only s); send_answer x_only c)

  -- What is sent, from the scalar and the point it should belong to.
  unfoldable pub own_answer : Bytes → Bytes → SessionOf ph → Result Error Bytes
  own_answer scalar expected_public s =
      elim (check_key_pair ph.group ph.order scalar expected_public) [
        | err e ↦ err (with_kind failure_key_mismatch e)
        | ok u ↦
            if is_empty s.x
            then err (plain no_request)
            else x_only_answer ph.group ph.order s.x scalar
      ]

  -- With the scalar as the deferred `Wipe` leaves it. The look at the challenge point and the answer are
  -- one step.
  unfoldable pub answer_with_scalar :
      Bytes → Bytes → HostOf ph → (Result Error (Unit {0}) × HostOf ph) × Bytes
  unfolding own_answer answer_x_only
  answer_with_scalar scalar expected_public h = (
    recorded ph
        (do
          s ← asks ph (λ s. s)
          x_only ← lift (λ e. e) (own_answer scalar expected_public s)
          answer_x_only x_only)
        h,
    wipe scalar,
  )

  unfoldable pub decline : Bytes → Call ph (Unit {0})
  decline reason = do
    s ← asks ph (λ s. s)
    c ← lift (λ e. e) (or_err (plain not_connected) s.conn)
    sent ← renamed ph because (send ph (decline_response reason) c)
    change ph (λ s. record s { answered = true })

  unfoldable pub close_session : HostOf ph → HostOf ph
  unfolding cancel_session close_locked
  close_session h = close_locked ph (cancel_session ph h)

  unfoldable pub new_session : Bytes → Bytes → SessionOf ph
  new_session machine_device_id seed = record {
    cancel = false;
    cancelled = false;
    failure = (0, []);
    progress = record { stage = 0; attempt = 0; route = none; leg_route = []; stages = [] };
    seed = seed;
    machine_id = ph.trim_space machine_device_id;
    direct_addr = [];
    timeout_seconds = default_timeout_seconds;
    network = no_settings;
    conn = none;
    machine_name = [];
    kid = [];
    x = [];
    answered = false;
  }

  unfoldable pub set_timeout_seconds : ℤ → SessionOf ph → SessionOf ph
  set_timeout_seconds (pos zero) s = record s { timeout_seconds = default_timeout_seconds }
  set_timeout_seconds (pos (suc n)) s = record s { timeout_seconds = suc n }
  set_timeout_seconds (negsuc n) s = record s { timeout_seconds = default_timeout_seconds }

  unfoldable pub set_direct_addr : Bytes → SessionOf ph → SessionOf ph
  set_direct_addr addr s = record s { direct_addr = addr }

  -- A value that is refused changes nothing.
  unfoldable pub set_discovery : Bytes → SessionOf ph → Result ConfigError (Unit {0}) × SessionOf ph
  set_discovery discovery s = elim (parse_dialer_network_config ph.urls discovery []) [
    | err e ↦ (err e, s)
    | ok network ↦ (ok tt, record s { network = network })
  ]

  -- `RequestPoint`, `RequestKid`, `HasRequest` and `PeerID`.
  unfoldable pub request_point : SessionOf ph → Bytes
  request_point s = s.x

  unfoldable pub request_kid : SessionOf ph → Bytes
  request_kid s = s.kid

  unfoldable pub has_request : SessionOf ph → Bool
  has_request s = not (is_empty s.x)

  unfoldable pub connected_peer : SessionOf ph → Bytes
  connected_peer s = elim s.conn [ none ↦ [] | some c ↦ ph.peer_id c ]
