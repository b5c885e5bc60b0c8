-- ===== src/Enrol/Late.antt =====
-- What the log of the runs keeps while a key is added and an old one removed
-- (cmd/synctang-unlocker/enrol.go).
use synctang.Action.{◌>>=◌, pure, lift}
use synctang.Action.Triple.{Triple, triple-bind, triple-lift}
use synctang.Enrol.Host.{
  Command, luks_dump, token_remove, token_import, luks_add_key, luks_kill_slot, System, Log,
  EnrolError, run_command, reading_header, choosing_keyslot, adding_keyslot, encoding_token,
  removing_token, writing_token, index_panic, destroying_keyslot,
}
use synctang.Enrol.Entries.{luks_key_material}
use synctang.Enrol.Reading.{is_negative}
use synctang.Enrol.Changes.{
  enrol_recipient, token_entry, remove_previous, remove_recipient_at, add_entry, drop_entry,
  import_id,
}
use synctang.Enrol.Kept.{
  is_kill, has_added, has_enrolled, kills_late, log_of, triple-run, triple-draw, kept_run,
  kept_lift, kept_load_token,
}
use synctang.LuksDump.{lowest_free_keyslot}
use synctang.Mr1.Crypto.{Recipient}
use synctang.Mr1.Start.{enrol}
use synctang.Prelude.{
  ◌≡◌, refl, Bool, true, false, not, [], ◌∷◌, Bytes, ℕ, or_err, get_elem?, some, arith,
  if◌then◌else◌,
}
use synctang.Text.{ℤ, itoa}
use synctang.Token.Codec.{Token, elements, marshal_token}

abbrev pub IsLate : Log → Type 0
IsLate l = kills_late l ≡ true

abbrev AddedLate : Log → Type 0
AddedLate l = (has_added l ≡ true) × (kills_late l ≡ true)

abbrev pub EnrolledLate : Log → Type 0
EnrolledLate l = (has_enrolled l ≡ true) × (kills_late l ≡ true)

abbrev pub spares : Command → Bool
spares c = not (is_kill c)

pub IsLate-stays :
    (c : Command) (won : Bool) (l : Log) → spares c ≡ true → IsLate l → IsLate ((c, won) ∷ l)
IsLate-stays c won l hc h = ground arith

pub enrolled_stays :
    (c : Command) (won : Bool) (l : Log)
    → spares c ≡ true
    → EnrolledLate l
    → EnrolledLate ((c, won) ∷ l)
enrolled_stays c won l hc h = ground arith

module _ (sys : System) (device passphrase : Bytes) where
  triple-remove_previous :
      (id : ℤ)
      → Triple
          (log_of sys)
          AddedLate
          (remove_previous sys device passphrase id)
          (λ a. AddedLate)
          (λ e. IsLate)
  unfolding remove_previous
  triple-remove_previous id = go (is_negative id)
    where
      go :
          (b : Bool)
          → Triple {E = EnrolError} {A = Bytes}
              (log_of sys)
              AddedLate
              (if b then pure [] else run_command sys removing_token (token_remove id device))
              (λ a. AddedLate)
              (λ e. IsLate)
      go true = record { run = λ h p. p }
      go false =
          triple-run sys removing_token (token_remove id device) (λ l p. ground arith)
            (λ l p. ground arith)

  pub triple-enrol_recipient :
      (public_key machine_name transport_id recipient_id : Bytes)
      → Triple
          (log_of sys)
          IsLate
          (enrol_recipient sys device passphrase public_key machine_name transport_id recipient_id)
          (λ a. EnrolledLate)
          (λ e. IsLate)
  unfolding enrol_recipient
  triple-enrol_recipient public_key machine_name transport_id recipient_id =
      triple-bind (λ a. IsLate)
        (kept_run sys spares IsLate IsLate-stays reading_header (luks_dump device) refl)
        (λ dump.
          triple-bind (λ a. IsLate)
            (kept_load_token sys spares IsLate IsLate-stays device refl (λ i. refl) dump
              machine_name transport_id)
            (λ found.
              triple-bind (λ a. IsLate)
                (kept_lift sys spares IsLate IsLate-stays (λ e. e)
                  (or_err choosing_keyslot (lowest_free_keyslot dump)))
                (λ slot.
                  triple-bind (λ a. IsLate)
                    (triple-draw sys (enrol sys.group sys.crypto sys.rand_read public_key))
                    (λ drawn.
                      triple-bind (λ a. IsLate)
                        (kept_lift sys spares IsLate IsLate-stays (λ e. e)
                          (token_entry sys device passphrase recipient_id drawn.1))
                        (λ r. writing found.0 found.1 slot drawn.0 r)))))
    where
      writing :
          (tok : Token) (id : ℤ) (slot : ℕ) (p : Bytes) (r : Recipient)
          → Triple
              (log_of sys)
              IsLate
              (do
                added ←
                    run_command sys adding_keyslot
                      (luks_add_key device passphrase (luks_key_material p) slot)
                text ← lift encoding_token (marshal_token sys.json (add_entry tok (itoa slot) r))
                removed ← remove_previous sys device passphrase id
                run_command sys writing_token
                    (token_import (import_id sys device passphrase id) device text))
              (λ a. EnrolledLate)
              (λ e. IsLate)
      writing tok id slot p r =
          triple-bind (λ a. AddedLate)
            (triple-run sys adding_keyslot
              (luks_add_key device passphrase (luks_key_material p) slot) (λ l h. ground arith)
              (λ l h. ground arith))
            (λ added.
              triple-bind (λ a. AddedLate)
                (triple-lift encoding_token (marshal_token sys.json (add_entry tok (itoa slot) r))
                  (λ a h v p. p) (λ e h v p. p.1))
                (λ text.
                  triple-bind (λ a. AddedLate) (triple-remove_previous id)
                    (λ removed.
                      triple-run sys writing_token
                        (token_import (import_id sys device passphrase id) device text)
                        (λ l h. ground arith) (λ l h. ground arith))))

  pub triple-remove_recipient_at :
      (tok : Token) (id : ℤ) (idx : ℕ)
      → Triple
          (log_of sys)
          EnrolledLate
          (remove_recipient_at sys device passphrase tok id idx)
          (λ a. EnrolledLate)
          (λ e. EnrolledLate)
  unfolding remove_recipient_at
  triple-remove_recipient_at tok id idx =
      triple-bind (λ a. EnrolledLate)
        (kept_lift sys spares EnrolledLate enrolled_stays (λ e. e)
          (or_err index_panic (get_elem? (elements tok.keyslots) idx)))
        (λ keyslot.
          triple-bind (λ a. EnrolledLate)
            (triple-run sys destroying_keyslot (luks_kill_slot device keyslot passphrase)
              (λ l h. ground arith) (λ l h. ground arith))
            (λ killed.
              triple-bind (λ a. EnrolledLate)
                (kept_lift sys spares EnrolledLate enrolled_stays encoding_token
                  (marshal_token sys.json (drop_entry tok idx)))
                (λ text.
                  triple-bind (λ a. EnrolledLate)
                    (kept_run sys spares EnrolledLate enrolled_stays removing_token
                      (token_remove id device) refl)
                    (λ removed.
                      kept_run sys spares EnrolledLate enrolled_stays writing_token
                        (token_import (some id) device text) refl))))
