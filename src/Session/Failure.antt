-- ===== src/Session/Failure.antt =====
-- mobile/failure.go: errors, the kind that the app is told, and the record of the last outcome. The
-- texts of errors are the constructors of `Cause`.
use synctang.Group.{GroupError}
use synctang.Mr1.Crypto.{Mr1Error}
use synctang.Prelude.{ℕ, [], Bytes, Result, ok, err}
use synctang.Scalar.{ScalarError}
use synctang.Wire.{WireError}

abbrev pub failure_none : ℕ
failure_none = 0

abbrev pub failure_other : ℕ
failure_other = 1

abbrev pub failure_cancelled : ℕ
failure_cancelled = 2

abbrev pub failure_unreachable : ℕ
failure_unreachable = 3

abbrev pub failure_hung_up : ℕ
failure_hung_up = 4

abbrev pub failure_no_reply : ℕ
failure_no_reply = 5

abbrev pub failure_outcome_unknown : ℕ
failure_outcome_unknown = 6

abbrev pub failure_answer_rejected : ℕ
failure_answer_rejected = 7

abbrev pub failure_bad_pairing_code : ℕ
failure_bad_pairing_code = 8

abbrev pub failure_pair_code_mismatch : ℕ
failure_pair_code_mismatch = 9

abbrev pub failure_pair_declined : ℕ
failure_pair_declined = 10

abbrev pub failure_pair_refused : ℕ
failure_pair_refused = 11

abbrev pub failure_protocol : ℕ
failure_protocol = 12

abbrev pub failure_key_mismatch : ℕ
failure_key_mismatch = 13

abbrev pub failure_pair_not_confirmed : ℕ
failure_pair_not_confirmed = 14

pub data Cause : Type 0 where
  already_connected no_machine_id empty_seed deriving_identity dialling : Cause
  wire_failed : WireError → Cause
  protocol_failed : Mr1Error → Cause
  group_failed : GroupError → Cause
  bad_scalar : ScalarError → Cause
  no_challenge_point : Cause
  wrong_key : Cause
  -- the length of what is not a point, and of what is not a coordinate
  not_a_point not_a_coordinate : ℕ → Cause
  no_request not_connected already_answered : Cause
  answer_rejected : Bytes → Cause
  cancelled no_answer_in_time : Cause
  bad_pairing_code bad_public_key refused_by_machine not_confirmed : Cause

-- `because` is `%w`, with the caller's words left out.
pub data Error : Type 0 where
  plain : Cause → Error
  because : Error → Error
  kind_error : ℕ → Bytes → Error → Error

abbrev pub with_kind : ℕ → Error → Error
with_kind k e = kind_error k [] e

abbrev pub with_kind_detail : ℕ → Bytes → Error → Error
with_kind_detail k d e = kind_error k d e

-- The outermost kind.
unfoldable pub kind_of_error : Error → ℕ × Bytes
kind_of_error (plain c) = (failure_other, [])
kind_of_error (because e) = kind_of_error e
kind_of_error (kind_error k d e) = (k, d)

unfoldable pub kind_of : {A : Type 0} → Result Error A → ℕ × Bytes
unfolding kind_of_error
kind_of (ok a) = (failure_none, [])
kind_of (err e) = kind_of_error e

abbrev pub err_cancelled : Error
err_cancelled = with_kind failure_cancelled (plain cancelled)

abbrev pub err_no_reply : Error
err_no_reply = with_kind failure_no_reply (plain no_answer_in_time)
