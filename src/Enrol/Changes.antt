-- ===== src/Enrol/Changes.antt =====
-- `enrolRecipient`, `enrolOnce`, `removeRecipient` and `replaceRecipient`: the calls that change the
-- volume. The secrets are wiped on return, which no later step can see.
use synctang.Action.{◌>>=◌, pure, lift}
use synctang.Enrol.Host.{
  luks_dump, token_remove, token_import, luks_add_key, luks_kill_slot, System, Run, EnrolError,
  reading_header, encoding_token, choosing_keyslot, bad_transport_id, adding_keyslot,
  destroying_keyslot, removing_token, writing_token, different_key, old_key_missing,
  enrolling_replacement, rereading_token, revoking_old_key, index_panic, run_command, draw,
}
use synctang.Enrol.Entries.{luks_key_material, is_empty, recipient_transport_blob, select_recipient}
use synctang.Enrol.Reading.{
  is_negative, EnrolPlan, plan_add, plan_already, plan_replace, load_token, load_enrolled_token,
  plan_enrolment,
}
use synctang.LuksDump.{lowest_free_keyslot}
use synctang.Mr1.Crypto.{Recipient}
use synctang.Mr1.Start.{enrol}
use synctang.Prelude.{
  ℕ, suc, Bool, true, false, List, [], ◌∷◌, ◌++◌, Bytes, bytes_eq, get_elem?, erase_idx,
  if◌then◌else◌, Option, none, some, Result, ok, err, map_err, or_err,
}
use synctang.Text.{ℤ, itoa}
use synctang.Token.Codec.{Token, Slice, slice, elements, marshal_token}

-- `append(s, x)`
abbrev pub append_one : {A : Type 0} → Slice A → A → Slice A
append_one s x = slice (elements s ++ (x ∷ []))

abbrev pub add_entry : Token → Bytes → Recipient → Token
add_entry tok slot r = record {
  version = tok.version;
  keyslots = append_one tok.keyslots slot;
  recipients = append_one tok.recipients r;
  machine = tok.machine;
  extra = tok.extra;
}

abbrev pub drop_entry : Token → ℕ → Token
drop_entry tok idx = record {
  version = tok.version;
  keyslots = slice (erase_idx (elements tok.keyslots) idx);
  recipients = slice (erase_idx (elements tok.recipients) idx);
  machine = tok.machine;
  extra = tok.extra;
}

abbrev pub with_transport : Bytes → Recipient → Recipient
with_transport blob r = record {
  kid = r.kid;
  s = r.s;
  c = r.c;
  ciphertext = r.ciphertext;
  nonce = r.nonce;
  transport = blob;
}

-- What `enrolOnce` did: the keyslot when the same key was already enrolled.
pub record EnrolOutcome : Type 0 where
  pub already : Bool
  pub keyslot : Bytes

-- `slices.Index`
abbrev pub index_of : Bytes → List Bytes → Option ℕ
index_of x [] = none
index_of x (y ∷ ys) =
    let later = index_of x ys in
    if bytes_eq y x then some 0 else elim later [ none ↦ none | some i ↦ some (suc i) ]

module _ (sys : System) (device passphrase : Bytes) where
  unfoldable pub token_entry : Bytes → Recipient → Result EnrolError Recipient
  token_entry recipient_id r =
      if is_empty recipient_id then ok r else (elim (recipient_transport_blob sys recipient_id) [
        | none ↦ err bad_transport_id
        | some blob ↦ ok (with_transport blob r)
      ])

  -- The removal of the token's previous version, when there is one.
  unfoldable pub remove_previous : ℤ → Run sys Bytes
  remove_previous id =
      if is_negative id then pure [] else run_command sys removing_token (token_remove id device)

  abbrev pub import_id : ℤ → Option ℤ
  import_id id = if is_negative id then none else some id

  unfoldable pub enrol_recipient : Bytes → Bytes → Bytes → Bytes → Run sys Bytes
  unfolding run_command remove_previous token_entry
  enrol_recipient public_key machine_name transport_id recipient_id = do
    dump ← run_command sys reading_header (luks_dump device)
    (tok, id) ← load_token sys device dump machine_name transport_id
    slot ← lift (λ e. e) (or_err choosing_keyslot (lowest_free_keyslot dump))
    (p, fresh) ← draw sys (enrol sys.group sys.crypto sys.rand_read public_key)
    r ← lift (λ e. e) (token_entry recipient_id fresh)
    added ←
        run_command sys adding_keyslot (luks_add_key device passphrase (luks_key_material p) slot)
    text ← lift encoding_token (marshal_token sys.json (add_entry tok (itoa slot) r))
    removed ← remove_previous id
    run_command sys writing_token (token_import (import_id id) device text)

  -- The switch of `enrolOnce`; `none` goes on to enrol.
  unfoldable pub outcome_of_plan : EnrolPlan → Result EnrolError (Option EnrolOutcome)
  outcome_of_plan plan_add = ok none
  outcome_of_plan (plan_already existing) =
      ok (some (record { already = true; keyslot = existing.keyslot }))
  outcome_of_plan (plan_replace existing) = err (different_key existing.keyslot)

  unfoldable pub planned : Bytes → Bytes → Run sys (Option EnrolOutcome)
  unfolding outcome_of_plan
  planned public_key recipient_id =
      if is_empty recipient_id
      then pure none
      else (plan_enrolment sys device public_key recipient_id >>= λ plan.
          lift (λ e. e) (outcome_of_plan plan))

  -- The rest of `enrolOnce`.
  unfoldable pub carry_on :
      Bytes → Bytes → Bytes → Bytes → Option EnrolOutcome → Run sys EnrolOutcome
  unfolding enrol_recipient
  carry_on public_key machine_name transport_id recipient_id (some o) = pure o
  carry_on public_key machine_name transport_id recipient_id none = do
    written ← enrol_recipient public_key machine_name transport_id recipient_id
    pure (record { already = false; keyslot = [] })

  unfoldable pub enrol_once : Bytes → Bytes → Bytes → Bytes → Run sys EnrolOutcome
  unfolding planned carry_on
  enrol_once public_key machine_name transport_id recipient_id =
      planned public_key recipient_id >>= carry_on public_key machine_name transport_id recipient_id

  unfoldable pub remove_recipient_at : Token → ℤ → ℕ → Run sys Bytes
  unfolding run_command
  remove_recipient_at tok id idx = do
    keyslot ← lift (λ e. e) (or_err index_panic (get_elem? (elements tok.keyslots) idx))
    killed ← run_command sys destroying_keyslot (luks_kill_slot device keyslot passphrase)
    text ← lift encoding_token (marshal_token sys.json (drop_entry tok idx))
    removed ← run_command sys removing_token (token_remove id device)
    run_command sys writing_token (token_import (some id) device text)

  unfoldable pub remove_recipient : Bytes → Bytes → Run sys Bytes
  unfolding remove_recipient_at load_enrolled_token
  remove_recipient recipient_id keyslot = do
    (tok, id) ← load_enrolled_token sys device
    idx ← lift (λ e. e) (select_recipient sys tok recipient_id keyslot)
    remove_recipient_at tok id idx

  abbrev pub with_error : {A : Type 0} → (EnrolError → EnrolError) → Run sys A → Run sys A
  with_error f m h = let (r, h') = m h in (map_err f r, h')

  unfoldable pub replace_recipient : Bytes → Bytes → Bytes → Bytes → Run sys Bytes
  unfolding enrol_recipient remove_recipient_at load_enrolled_token
  replace_recipient public_key old_id new_id keyslot = do
    (before, before_id) ← load_enrolled_token sys device
    old_idx ← lift (λ e. e) (select_recipient sys before old_id keyslot)
    old_keyslot ← lift (λ e. e) (or_err index_panic (get_elem? (elements before.keyslots) old_idx))
    enrolled ← with_error enrolling_replacement (enrol_recipient public_key [] [] new_id)
    (tok, id) ← with_error rereading_token (load_enrolled_token sys device)
    idx ←
        lift (λ e. e)
          (or_err (old_key_missing old_keyslot) (index_of old_keyslot (elements tok.keyslots)))
    with_error (revoking_old_key old_keyslot) (remove_recipient_at tok id idx)
