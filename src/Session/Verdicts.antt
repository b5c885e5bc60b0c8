-- ===== src/Session/Verdicts.antt =====
-- How long a pairing goes on (mobile/pair.go), and what the app is told of its end.
use synctang.Session.Pairing.{after_attempt}
use synctang.Pair.Messages.{pair_refused_code_mismatch, pair_refused_declined}
use synctang.Progress.{advance}
use synctang.Session.Connect.{stage_starting}
use synctang.Session.Failure.{
  Error, kind_of_error, failure_none, failure_cancelled, failure_unreachable,
  failure_pair_code_mismatch, failure_pair_declined, failure_pair_refused,
  failure_pair_not_confirmed,
}
use synctang.Session.Pairer.{
  PairCodec, PairerOf, PairInput, AttemptError, lost, machine_refused, operator_timeout, pair_once,
}
use synctang.Session.Phone.{Phone}
use synctang.Session.Waits.{Clock}
use synctang.Prelude.{ℕ, ◌≡◌, ◌≢◌, ◌⊎◌, true, false, [], Bytes, Option, none, some, Result, ok, err}

module _ (ph : Phone) (codec : PairCodec ph) (clock : Clock ph) where
  -- What is recorded of a failed attempt after which the pairing ends, where it was not cancelled.
  abbrev pub Reported : AttemptError → ℕ × Bytes → Type 0
  Reported (lost e) k = k ≡ (failure_unreachable, [])
  Reported operator_timeout k = k ≡ (failure_pair_not_confirmed, [])
  Reported (machine_refused reason) k =
      ((reason ≡ pair_refused_code_mismatch) × (k ≡ (failure_pair_code_mismatch, [])))
      ⊎ (((reason ≡ pair_refused_declined) × (k ≡ (failure_pair_declined, [])))
          ⊎ ((reason ≢ pair_refused_code_mismatch)
              × (reason ≢ pair_refused_declined)
              × (k ≡ (failure_pair_refused, reason))))

  -- The pairing was cancelled and says so, or it was not and says how its last attempt failed.
  abbrev pub Verdict : AttemptError → ℕ × Bytes → PairerOf ph codec → Type 0
  Verdict a k p =
      ((p.cancelled ≡ true) × (k ≡ (failure_cancelled, [])))
      ⊎ ((p.cancelled ≡ false) × Reported a k)

  -- The second pairer is the first after attempts that failed and were not the last.
  pub data Retried (input : PairInput ph.Cert)
      : PairerOf ph codec → PairerOf ph codec → Type 0 where
    no_more : {p : PairerOf ph codec} → Retried input p p
    once_more :
        {p q : PairerOf ph codec} (a : AttemptError)
        → (pair_once ph codec input p).0 ≡ err a
        → (after_attempt ph codec a (pair_once ph codec input p).1).0 ≡ none
        → Retried input (after_attempt ph codec a (pair_once ph codec input p).1).1 q
        → Retried input p q

  abbrev pub Succeeds : PairInput ph.Cert → PairerOf ph codec → Type 0
  Succeeds input p =
      (q : PairerOf ph codec) × Retried input p q × ((pair_once ph codec input q).0 ≡ ok tt)

  abbrev pub Fails : PairInput ph.Cert → PairerOf ph codec → ℕ × Bytes → PairerOf ph codec → Type 0
  Fails input p k p' =
      (q : PairerOf ph codec) × (a : AttemptError) × Retried input p q
      × ((pair_once ph codec input q).0 ≡ err a)
      × Verdict a k p'

  abbrev Stops :
      PairInput ph.Cert
      → PairerOf ph codec
      → Option (Result Error (Unit {0}) × PairerOf ph codec)
      → Type 0
  Stops input p none = ⊥
  Stops input p (some (ok u, p')) = Succeeds input p
  Stops input p (some (err e, p')) = Fails input p (kind_of_error e) p'

  -- The pairer as the first attempt finds it.
  abbrev pub begun : PairerOf ph codec → PairerOf ph codec
  begun p = record p { cancel = true; progress = advance stage_starting p.progress }

  -- How a pairing has returned, and what is recorded of it.
  abbrev pub Concludes :
      PairInput ph.Cert
      → PairerOf ph codec
      → Option (Result Error (Unit {0}) × PairerOf ph codec)
      → Type 0
  Concludes input p none = ⊥
  Concludes input p (some (ok u, p')) = (p'.failure ≡ (failure_none, [])) × Succeeds input (begun p)
  Concludes input p (some (err e, p')) =
      ((p.cancelled ≡ true) × (p'.failure ≡ (failure_cancelled, [])))
      ⊎ Fails input (begun p) p'.failure p'
