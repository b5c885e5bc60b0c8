-- ===== src/Enrol/Order.antt =====
-- The order of the runs of cryptsetup in `replaceRecipient` (cmd/synctang-unlocker/enrol.go).
use synctang.Enrol.Late.{
  IsLate, EnrolledLate, spares, IsLate-stays, enrolled_stays, triple-enrol_recipient,
  triple-remove_recipient_at,
}
use synctang.Action.{◌>>=◌, lift}
use synctang.Action.Triple.{Post, Triple, triple-bind}
use synctang.Enrol.Host.{
  System, Run, Log, EnrolError, old_key_missing, index_panic, enrolling_replacement,
  rereading_token, revoking_old_key,
}
use synctang.Enrol.Entries.{select_recipient}
use synctang.Enrol.Reading.{load_enrolled_token}
use synctang.Enrol.Changes.{
  enrol_recipient, remove_recipient_at, replace_recipient, index_of, with_error,
}
use synctang.Enrol.Kept.{kills_late, HostOf, log_of, kept_lift, kept_load_enrolled_token}
use synctang.Prelude.{◌≡◌, refl, true, [], Bytes, Result, ok, err, or_err, map_err, get_elem?}
use synctang.Token.Codec.{elements}

module _ (sys : System) (device passphrase : Bytes) where
  -- An error under another name changes nothing.
  triple-with_error :
      {A : Type 0} {P Q R : Log → Type 0} {m : Run sys A} (f : EnrolError → EnrolError)
      → Triple (log_of sys) P m (λ a. Q) (λ e. R)
      → Triple (log_of sys) P (with_error sys device passphrase f m) (λ a. Q) (λ e. R)
  triple-with_error {A} {P} {Q} {R} {m} f t = record { run = λ h p. go (m h) (t.run h p) }
    where
      go :
          (out : Result EnrolError A × HostOf sys)
          → Post (log_of sys) (λ a. Q) (λ e. R) out
          → Post (log_of sys) (λ a. Q) (λ e. R) (map_err f out.0, out.1)
      go (ok a, h) q = q
      go (err e, h) r = r

  weaker :
      {A : Type 0} {P Q : Log → Type 0} {m : Run sys A}
      → Triple (log_of sys) P m (λ a. Q) (λ e. EnrolledLate)
      → Triple (log_of sys) P m (λ a. Q) (λ e. IsLate)
  weaker {A} {P} {Q} {m} t = record { run = λ h p. go (m h) (t.run h p) }
    where
      go :
          (out : Result EnrolError A × HostOf sys)
          → Post (log_of sys) (λ a. Q) (λ e. EnrolledLate) out
          → Post (log_of sys) (λ a. Q) (λ e. IsLate) out
      go (ok a, h) q = q
      go (err e, h) r = r.1

  triple-replace_recipient :
      (public_key old_id new_id keyslot : Bytes)
      → Triple
          (log_of sys)
          IsLate
          (replace_recipient sys device passphrase public_key old_id new_id keyslot)
          (λ a. EnrolledLate)
          (λ e. IsLate)
  unfolding replace_recipient
  triple-replace_recipient public_key old_id new_id keyslot =
      triple-bind (λ a. IsLate)
        (kept_load_enrolled_token sys spares IsLate IsLate-stays device refl (λ i. refl))
        (λ before.
          triple-bind (λ a. IsLate)
            (kept_lift sys spares IsLate IsLate-stays (λ e. e)
              (select_recipient sys before.0 old_id keyslot))
            (λ old_idx.
              triple-bind (λ a. IsLate)
                (kept_lift sys spares IsLate IsLate-stays (λ e. e)
                  (or_err index_panic (get_elem? (elements before.0.keyslots) old_idx)))
                (λ old_keyslot. revoking old_keyslot)))
    where
      revoking :
          (old_keyslot : Bytes)
          → Triple
              (log_of sys)
              IsLate
              (do
                enrolled ←
                    with_error sys device passphrase enrolling_replacement
                      (enrol_recipient sys device passphrase public_key [] [] new_id)
                (tok, id) ←
                    with_error sys device passphrase rereading_token
                      (load_enrolled_token sys device)
                idx ←
                    lift
                      (λ e. e)
                      (or_err
                        (old_key_missing old_keyslot)
                        (index_of old_keyslot (elements tok.keyslots)))
                with_error sys device passphrase
                    (revoking_old_key old_keyslot)
                    (remove_recipient_at sys device passphrase tok id idx))
              (λ a. EnrolledLate)
              (λ e. IsLate)
      revoking old_keyslot =
          triple-bind (λ a. EnrolledLate)
            (triple-with_error enrolling_replacement
              (triple-enrol_recipient sys device passphrase public_key [] [] new_id))
            (λ enrolled.
              triple-bind (λ a. EnrolledLate)
                (weaker (
                  triple-with_error rereading_token (
                    kept_load_enrolled_token sys spares EnrolledLate enrolled_stays device refl
                      (λ i. refl))))
                (λ found.
                  triple-bind (λ a. EnrolledLate)
                    (weaker (
                      kept_lift sys spares EnrolledLate enrolled_stays (λ e. e)
                        (or_err (old_key_missing old_keyslot)
                          (index_of old_keyslot (elements found.0.keyslots)))))
                    (λ idx. weaker (
                      triple-with_error (revoking_old_key old_keyslot)
                        (triple-remove_recipient_at sys device passphrase found.0 found.1 idx)))))

  -- Replacing a key never runs luksKillSlot before a run of luksAddKey has succeeded and, after it, a
  -- run of token import: whatever the runs answer, and whether or not the call fails.
  pub replace_recipient-kills_late :
      (public_key old_id new_id keyslot : Bytes) (h : HostOf sys)
      → (h.log ≡ [])
      → kills_late
          (replace_recipient sys device passphrase public_key old_id new_id keyslot h).1.log
        ≡ true
  replace_recipient-kills_late public_key old_id new_id keyslot h empty =
      go (replace_recipient sys device passphrase public_key old_id new_id keyslot h)
        ((triple-replace_recipient public_key old_id new_id keyslot).run h (rw (empty)))
    where
      go :
          (out : Result EnrolError Bytes × HostOf sys)
          → Post (log_of sys) (λ a. EnrolledLate) (λ e. IsLate) out
          → kills_late out.1.log ≡ true
      go (ok a, s) q = q.1
      go (err e, s) r = r
