-- ===== src/Enrol/Reading.antt =====
-- `loadToken` with its retries, `loadEnrolledToken` and `planEnrolment`: the calls that only read.
use synctang.Action.{◌>>=◌, pure, lift}
use synctang.Enrol.Host.{
  luks_dump, token_export, System, Run, EnrolError, reading_header, reading_token, decoding_token,
  no_recipients, list_lengths, enrolled_more_than_once, run_command,
}
use synctang.Enrol.Entries.{keyslot_of, recipients_by_transport_id}
use synctang.LuksDump.{token_ids_of_type}
use synctang.Prelude.{
  ℕ, zero, suc, Bool, true, false, ◌==◌, List, [], ◌∷◌, Bytes, bytes_eq, codes, length, get_elem?,
  if◌then◌else◌, none, some, Result, ok, err,
}
use synctang.Text.{ℤ, pos, negsuc}
use synctang.Token.Codec.{Token, nil, elements, unmarshal_token}

abbrev pub mr_token_type : Bytes
mr_token_type = codes "mr-1"

abbrev pub token_read_attempts : ℕ
token_read_attempts = 4

abbrev pub is_negative : ℤ → Bool
is_negative (pos n) = false
is_negative (negsuc n) = true

pub record ExistingRecipient : Type 0 where
  pub keyslot : Bytes
  pub kid : Bytes

-- `enrolPlanKind` with the entry that the last two have.
pub data EnrolPlan : Type 0 where
  plan_add : EnrolPlan
  plan_already plan_replace : ExistingRecipient → EnrolPlan

-- The token of a device that has none yet.
abbrev pub new_token : Bytes → Bytes → Token
new_token machine_name transport_id = record {
  version = pos 1;
  keyslots = nil;
  recipients = nil;
  machine = record { name = machine_name; transport_id = transport_id };
  extra = [];
}

-- `Recipients[i].Kid`; the indices of `recipients_by_transport_id` are in range.
abbrev pub kid_at : Token → ℕ → Bytes
kid_at tok i = elim (get_elem? (elements tok.recipients) i) [ none ↦ [] | some r ↦ r.kid ]

abbrev pub existing_at : Token → ℕ → ExistingRecipient
existing_at tok i = record { keyslot = keyslot_of tok i; kid = kid_at tok i }

-- The outcomes of `loadEnrolledToken` on what `loadToken` gave.
unfoldable pub check_enrolled : Token → ℤ → Result EnrolError (Token × ℤ)
check_enrolled tok id =
    if is_negative id
    then err no_recipients
    else if length (elements tok.keyslots) == length (elements tok.recipients)
    then ok (tok, id)
    else err (list_lengths (length (elements tok.keyslots)) (length (elements tok.recipients)))

module _ (sys : System) (device : Bytes) where
  -- The loop of `loadToken`, with the attempts that are left.
  unfoldable pub export_attempts : ℕ → ℤ → Run sys Bytes
  unfolding run_command
  export_attempts zero id h = (ok [], h)
  export_attempts (suc zero) id h = run_command sys reading_token (token_export id device) h
  export_attempts (suc (suc n)) id h =
      let (r, h') = run_command sys reading_token (token_export id device) h in
      elim r [ ok out ↦ (ok out, h') | err e ↦ export_attempts (suc n) id h' ]

  unfoldable pub load_token : Bytes → Bytes → Bytes → Run sys (Token × ℤ)
  unfolding export_attempts
  load_token dump machine_name transport_id = elim (token_ids_of_type dump mr_token_type) [
    | [] ↦ pure (new_token machine_name transport_id, negsuc 0)
    | id ∷ ids ↦ do
      exported ← export_attempts token_read_attempts id
      tok ← lift decoding_token (unmarshal_token sys.json exported)
      pure (tok, id)
  ]

  unfoldable pub load_enrolled_token : Run sys (Token × ℤ)
  unfolding load_token run_command check_enrolled
  load_enrolled_token = do
    dump ← run_command sys reading_header (luks_dump device)
    (tok, id) ← load_token dump [] []
    lift (λ e. e) (check_enrolled tok id)

  -- The switch of `planEnrolment` on the entries of the id.
  unfoldable pub plan_among : Bytes → Token → List ℕ → Result EnrolError EnrolPlan
  plan_among public_key tok [] = ok plan_add
  plan_among public_key tok (i ∷ []) =
      if bytes_eq (kid_at tok i) (sys.crypto.sha256 public_key)
      then ok (plan_already (existing_at tok i))
      else ok (plan_replace (existing_at tok i))
  plan_among public_key tok (i ∷ j ∷ is_) = err enrolled_more_than_once

  unfoldable pub plan_enrolment : Bytes → Bytes → Run sys EnrolPlan
  unfolding load_token run_command plan_among
  plan_enrolment public_key transport_id = do
    dump ← run_command sys reading_header (luks_dump device)
    (tok, id) ← load_token dump [] []
    (if is_negative id
        then pure plan_add
        else lift (λ e. e)
            (plan_among public_key tok (recipients_by_transport_id sys tok transport_id)))
