-- ===== src/Agent/Exchange.antt =====
-- `runExchange`: the conversation with the key holder. The connection and the system are parameters;
-- the log holds what was sent, tested and delivered, the latest first. The time limits and the wait for
-- the peer to close, which no result depends on, are left out.
use synctang.Action.{Action, ◌>>=◌, lift, raise_if}
use synctang.Agent.Peers.{
  AgentError, sending_hello, sending_request, reading_response, declined, starting_challenge,
  finishing, no_answer, does_not_open, delivering, match_recipient, check_secret_length,
}
use synctang.Enrol.Entries.{is_empty, luks_key_material}
use synctang.Enrol.Host.{System}
use synctang.Mr1.Crypto.{Recipient}
use synctang.Mr1.Finish.{finish_full_point, finish_x_only}
use synctang.Mr1.Start.{challenge_start}
use synctang.Prelude.{
  Bool, true, false, not, List, [], ◌∷◌, Bytes, Option, Result, ok, err, map_err, or_err,
  if◌then◌else◌,
}
use synctang.Token.Codec.{Token}
use synctang.Wire.{Hello, RecoverRequest, RecoverResponse, RecoverResult}

pub data Event : Type 0 where
  sent_hello : Hello → Bool → Event
  sent_request : RecoverRequest → Bool → Event
  received : Option RecoverResponse → Event
  tested delivered : Bytes → Bool → Event
  sent_result : RecoverResult → Event

-- The connection, `verifyPassphrase` and `deliver`; the Boolean is success. `describe` is the text of
-- an error, `safe_label` the key holder's text made fit to print.
pub record Setting : Type 1 where
  pub system : System
  pub World : Type 0
  pub send_hello : Hello → World → Bool × World
  pub send_request : RecoverRequest → World → Bool × World
  pub receive : World → Option RecoverResponse × World
  pub send_result : RecoverResult → World → World
  pub test : Bytes → World → Bool × World
  pub deliver : Bytes → World → Bool × World
  pub peer_id : Bytes
  pub safe_label : Bytes → Bytes
  pub describe : AgentError → Bytes

pub record Session (World Source : Type 0) : Type 0 where
  pub world : World
  pub source : Source
  pub log : List Event

abbrev pub Talk : Setting → Type 0 → Type 0
Talk st A = Action (Session st.World st.system.group.Source) AgentError A

module _ (st : Setting) where
  -- A call that succeeds or not, and its event.
  unfoldable pub attempt :
      (st.World → Bool × st.World) → (Bool → Event) → AgentError → Talk st (Unit {0})
  attempt call event e s =
      let (done, w) = call s.world in
      (
        if done then ok tt else err e,
        record { world = w; source = s.source; log = event done ∷ s.log },
      )

  unfoldable pub receive_response : Talk st RecoverResponse
  receive_response s =
      let (resp, w) = st.receive s.world in
      (
        or_err reading_response resp,
        record { world = w; source = s.source; log = received resp ∷ s.log },
      )

  unfoldable pub start_challenge : Bytes → Talk st (Bytes × Bytes)
  start_challenge c s =
      let (r, src) =
        challenge_start st.system.group st.system.crypto st.system.rand_read c s.source in
      (map_err starting_challenge r, record { world = s.world; source = src; log = s.log })

  -- The secret of the response: the full point is preferred to the X coordinate.
  unfoldable pub recovered_secret : Recipient → Bytes → RecoverResponse → Result AgentError Bytes
  recovered_secret rec e resp =
      if not (is_empty resp.y)
      then map_err finishing (finish_full_point st.system.group st.system.crypto e rec resp.y).0
      else if not (is_empty resp.x_only)
      then map_err finishing (finish_x_only st.system.group st.system.crypto e rec resp.x_only).0
      else err no_answer

  -- From the response to the delivery.
  unfoldable pub use_response : Recipient → Bytes → RecoverResponse → Talk st (Unit {0})
  unfolding recovered_secret attempt
  use_response rec e resp = do
    p ← lift (λ e. e) (recovered_secret rec e resp)
    right ← lift (λ e. e) (check_secret_length p)
    opens ← attempt (st.test (luks_key_material p)) (tested (luks_key_material p)) does_not_open
    attempt (st.deliver (luks_key_material p)) (delivered (luks_key_material p)) delivering

  abbrev pub verdict : Result AgentError (Unit {0}) → RecoverResult
  verdict (ok u) = record { succeeded = true; error = [] }
  verdict (err e) = record { succeeded = false; error = st.describe e }

  -- The closure `report`: best effort, the outcome is returned as it was.
  unfoldable pub report : Talk st (Unit {0}) → Talk st (Unit {0})
  report m s =
      let (outcome, s') = m s in
      (
        outcome,
        record {
          world = st.send_result (verdict outcome) s'.world;
          source = s'.source;
          log = sent_result (verdict outcome) ∷ s'.log;
        },
      )

  unfoldable pub run_exchange : Token → Bytes → Talk st (Unit {0})
  unfolding attempt receive_response start_challenge use_response report
  run_exchange tok machine_name = do
    rec ← lift (λ e. e) (match_recipient st.system tok st.peer_id)
    greeted ←
        attempt (st.send_hello (record { name = machine_name }))
          (sent_hello (record { name = machine_name })) sending_hello
    (e, x) ← start_challenge rec.c
    asked ←
        attempt (st.send_request (record { kid = rec.kid; x = x }))
          (sent_request (record { kid = rec.kid; x = x })) sending_request
    resp ← receive_response
    agreed ← raise_if (not (is_empty resp.error)) (declined (st.safe_label resp.error))
    report (use_response rec e resp)
