-- ===== src/Enrol/Kept.antt =====
-- Conditions on the log of the runs, and how the runs of cryptsetup and the calls that only read keep
-- them.
use synctang.Action.{Action, ◌>>=◌, pure, lift}
use synctang.Action.Triple.{Post, Triple, triple-bind, triple-lift}
use synctang.Enrol.Host.{
  Command, luks_dump, token_export, token_remove, token_import, luks_add_key, luks_kill_slot,
  test_passphrase, System, Host, Log, EnrolError, run_command, draw, is_some, enrol_failed,
  reading_header, reading_token, decoding_token,
}
use synctang.Enrol.Reading.{
  export_attempts, load_token, load_enrolled_token, check_enrolled, new_token, mr_token_type,
  token_read_attempts,
}
use synctang.Mr1.Crypto.{Mr1Error}
use synctang.Prelude.{
  ◌≡◌, Bool, true, false, not, ◌&&◌, ◌||◌, List, [], ◌∷◌, Bytes, ℕ, zero, suc, Result, ok, err,
  or_err, map_err, Option, none, some,
}
use synctang.Text.{ℤ, negsuc}
use synctang.LuksDump.{token_ids_of_type}
use synctang.Token.Codec.{Token, unmarshal_token}

abbrev pub is_read : Command → Bool
is_read (luks_dump d) = true
is_read (token_export i d) = true
is_read (token_remove i d) = false
is_read (token_import i d t) = false
is_read (luks_add_key d p k n) = false
is_read (luks_kill_slot d n p) = false
is_read (test_passphrase d p) = true

abbrev pub is_kill : Command → Bool
is_kill (luks_dump d) = false
is_kill (token_export i d) = false
is_kill (token_remove i d) = false
is_kill (token_import i d t) = false
is_kill (luks_add_key d p k n) = false
is_kill (luks_kill_slot d n p) = true
is_kill (test_passphrase d p) = false

abbrev pub is_add : Command → Bool
is_add (luks_dump d) = false
is_add (token_export i d) = false
is_add (token_remove i d) = false
is_add (token_import i d t) = false
is_add (luks_add_key d p k n) = true
is_add (luks_kill_slot d n p) = false
is_add (test_passphrase d p) = false

abbrev pub is_import : Command → Bool
is_import (luks_dump d) = false
is_import (token_export i d) = false
is_import (token_remove i d) = false
is_import (token_import i d t) = true
is_import (luks_add_key d p k n) = false
is_import (luks_kill_slot d n p) = false
is_import (test_passphrase d p) = false

-- A key was added.
abbrev pub has_added : Log → Bool
has_added [] = false
has_added ((c, won) ∷ l) = (is_add c && won) || has_added l

-- A key was added, and a token was written after it.
abbrev pub has_enrolled : Log → Bool
has_enrolled [] = false
has_enrolled ((c, won) ∷ l) = (is_import c && (won && has_added l)) || has_enrolled l

-- No keyslot was destroyed, or tried to be, before a key had been added and a token written.
abbrev pub kills_late : Log → Bool
kills_late [] = true
kills_late ((c, won) ∷ l) = (not (is_kill c) || has_enrolled l) && kills_late l

abbrev pub HostOf : System → Type 0
HostOf sys = Host sys.World sys.group.Source

abbrev pub log_of : (sys : System) → HostOf sys → Log
log_of sys h = h.log

-- A run of a command, by what each outcome adds to the log.
pub triple-run :
    (sys : System) {P Q R : Log → Type 0} (e : EnrolError) (c : Command)
    → ((l : Log) → P l → Q ((c, true) ∷ l))
    → ((l : Log) → P l → R ((c, false) ∷ l))
    → Triple (log_of sys) P (run_command sys e c) (λ a. Q) (λ e. R)
unfolding run_command
triple-run sys {P} {Q} {R} e c hq hr = record { run = λ h p. go h p (sys.run c h.world) }
  where
    go :
        (h : HostOf sys) (p : P h.log) (out : Option Bytes × sys.World)
        → Post
            (log_of sys)
            (λ a. Q)
            (λ e. R)
            (
              or_err e out.0,
              record { world = out.1; source = h.source; log = (c, is_some out.0) ∷ h.log },
            )
    go h p (none, w) = hr h.log p
    go h p (some b, w) = hq h.log p

pub triple-draw :
    (sys : System) {P : Log → Type 0} {A : Type 0} (m : Action sys.group.Source Mr1Error A)
    → Triple (log_of sys) P (draw sys m) (λ a. P) (λ e. P)
unfolding draw
triple-draw sys {P} {A} m = record { run = λ h p. go h p (m h.source) }
  where
    go :
        (h : HostOf sys) (p : P h.log) (out : Result Mr1Error A × sys.group.Source)
        → Post
            (log_of sys)
            (λ a. P)
            (λ e. P)
            (map_err enrol_failed out.0, record { world = h.world; source = out.1; log = h.log })
    go h p (ok a, s) = p
    go h p (err e, s) = p

-- A condition on the log that survives the runs of every command that passes a test.
module _ (sys : System) (q : Command → Bool) (P : Log → Type 0)
    (stays : (c : Command) (won : Bool) (l : Log) → q c ≡ true → P l → P ((c, won) ∷ l)) where
  pub kept_run :
      (e : EnrolError) (c : Command)
      → q c ≡ true
      → Triple (log_of sys) P (run_command sys e c) (λ a. P) (λ e. P)
  kept_run e c hc = triple-run sys e c (λ l p. stays c true l hc p) (λ l p. stays c false l hc p)

  pub kept_lift :
      {F A : Type 0} (f : F → EnrolError) (r : Result F A)
      → Triple (log_of sys) P (lift f r) (λ a. P) (λ e. P)
  kept_lift f r = triple-lift f r (λ a h v p. p) (λ e h v p. p)

  module _ (device : Bytes) (dump : q (luks_dump device) ≡ true)
      (export_ : (id : ℤ) → q (token_export id device) ≡ true) where
    kept_export :
        (n : ℕ) (id : ℤ) → Triple (log_of sys) P (export_attempts sys device n id) (λ a. P) (λ e. P)
    unfolding export_attempts
    kept_export zero id = record { run = λ s p. p }
    kept_export (suc zero) id = kept_run reading_token (token_export id device) (export_ id)
    kept_export (suc (suc n)) id = record {
      run = λ h p.
          go (kept_export (suc n) id) (run_command sys reading_token (token_export id device) h)
            ((kept_run reading_token (token_export id device) (export_ id)).run h p);
    }
      where
        go :
            (later : Triple
              (log_of sys)
              P
              (export_attempts sys device (suc n) id)
              (λ a. P)
              (λ e. P))
            (out : Result EnrolError Bytes × HostOf sys)
            → Post (log_of sys) (λ a. P) (λ e. P) out
            → Post {E = EnrolError} {A = Bytes}
                (log_of sys)
                (λ a. P)
                (λ e. P)
                (elim out.0 [
                  | ok b ↦ (ok b, out.1)
                  | err e ↦ export_attempts sys device (suc n) id out.1
                ])
        go later (ok b, h) p = p
        go later (err e, h) p = later.run h p

    pub kept_load_token :
        (text machine_name transport_id : Bytes)
        → Triple
            (log_of sys)
            P
            (load_token sys device text machine_name transport_id)
            (λ a. P)
            (λ e. P)
    unfolding load_token
    kept_load_token text machine_name transport_id = go (token_ids_of_type text mr_token_type)
      where
        go :
            (ids : List ℤ)
            → Triple {E = EnrolError} {A = Token × ℤ}
                (log_of sys)
                P
                (elim ids [
                  | [] ↦ pure (new_token machine_name transport_id, negsuc 0)
                  | id ∷ ids ↦ do
                    exported ← export_attempts sys device token_read_attempts id
                    tok ← lift decoding_token (unmarshal_token sys.json exported)
                    pure (tok, id)
                ])
                (λ a. P)
                (λ e. P)
        go [] = record { run = λ h p. p }
        go (id ∷ ids) =
            triple-bind (λ a. P) (kept_export token_read_attempts id)
              (λ b.
                triple-bind {f = λ tok. pure (tok, id)} (λ a. P)
                  (kept_lift decoding_token (unmarshal_token sys.json b))
                  (λ tok. record { run = λ h p. p }))

    pub kept_load_enrolled_token :
        Triple (log_of sys) P (load_enrolled_token sys device) (λ a. P) (λ e. P)
    unfolding load_enrolled_token
    kept_load_enrolled_token =
        triple-bind (λ a. P) (kept_run reading_header (luks_dump device) dump)
          (λ text.
            triple-bind (λ a. P) (kept_load_token text [] [])
              (λ found. kept_lift (λ e. e) (check_enrolled found.0 found.1)))
