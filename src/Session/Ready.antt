-- ===== src/Session/Ready.antt =====
-- What a session holds when `Connect` returns.
use synctang.Session.Attempt.{Unconnected, IsReady, view, Does, asks-Does, progress-Does, once-Does}
use synctang.Enrol.Host.{is_some}
use synctang.Action.{raise_if, pure}
use synctang.Action.Triple.{Post, triple-bind, triple-lift, both-Post}
use synctang.Enrol.Entries.{is_empty}
use synctang.Progress.{advance}
use synctang.Session.Connect.{
  left, connect_once, after_failure, connect_loop, prepare, connect, stage_starting, arm,
  is_cancelled, arm_cancel, cert_for_seed,
}
use synctang.Session.Failure.{Error, plain, already_connected, no_machine_id, err_cancelled}
use synctang.Session.Phone.{Phone, HostOf, recorded}
use synctang.Prelude.{ℕ, zero, suc, Bool, not, Option, none, some, Result, ok, err, arith}

module _ (ph : Phone) where
  -- How `Connect` leaves the session.
  abbrev pub Left : Option (Result Error (Unit {0}) × HostOf ph) → Type 0
  Left none = Unit {0}
  Left (some (ok u, h)) = IsReady ph h.session
  Left (some (err e, h)) = Unconnected ph h.session

  after_failure-Unconnected :
      (e : Error) (h : HostOf ph)
      → Unconnected ph h.session
      → Unconnected ph (after_failure ph e h).1.session
  unfolding after_failure is_cancelled
  after_failure-Unconnected e h p = ground arith

  loop-Left :
      (fuel : ℕ) (cert : ph.Cert) (h : HostOf ph)
      → Unconnected ph h.session
      → Left (connect_loop ph fuel cert h)
  unfolding connect_loop
  loop-Left zero cert h p = tt
  loop-Left (suc fuel) cert h p =
      go (connect_once ph cert h) ((once-Does ph cert).run h p) (λ t. loop-Left fuel cert t)
    where
      next :
          (out : Option Error × HostOf ph) (loop : Option (Result Error (Unit {0}) × HostOf ph))
          → Unconnected ph out.1.session
          → Left loop
          → Left (elim out.0 [ some e' ↦ some (err e', out.1) | none ↦ loop ])
      next (some e, t) loop q l = q
      next (none, t) loop q l = l

      go :
          (out : Result Error (Unit {0}) × HostOf ph)
          → Post {E = Error} (view ph) (λ u. (IsReady ph)) (λ e. (Unconnected ph)) out
          → ((t : HostOf ph) → Unconnected ph t.session → Left (connect_loop ph fuel cert t))
          → Left (elim out.0 [
            | ok u ↦ some (ok tt, out.1)
            | err e ↦
                let (stop, h2) = after_failure ph e out.1 in
                elim stop [ some e' ↦ some (err e', h2) | none ↦ connect_loop ph fuel cert h2 ]
          ])
      go (ok u, t) q loops = q
      go (err e, t) q loops =
          let r = after_failure-Unconnected e t q in
          next (after_failure ph e t) (connect_loop ph fuel cert (after_failure ph e t).1) r
            (loops (after_failure ph e t).1 r)

  raise_if-Does :
      (b : Bool) (e : Error) → Does ph (Unconnected ph) (raise_if b e) (λ u. (Unconnected ph))
  raise_if-Does b e = record {
    run = λ h p. both-Post (view ph) (Unconnected ph) (raise_if b e h) p;
  }

  arm-Does : Does ph (Unconnected ph) (arm ph) (λ a. (Unconnected ph))
  unfolding arm arm_cancel
  arm-Does = record { run = λ h p. ground arith }

  pure-Does : (cert : ph.Cert) → Does ph (Unconnected ph) (pure cert) (λ c. (Unconnected ph))
  pure-Does cert = record { run = λ h p. p }

  prepare-Does : Does ph (Unconnected ph) (prepare ph) (λ cert. (Unconnected ph))
  unfolding prepare
  prepare-Does =
      triple-bind (λ s. (Unconnected ph)) (asks-Does ph (λ s. s))
        (λ s.
          triple-bind (λ u. (Unconnected ph))
            (raise_if-Does (is_some s.conn) (plain already_connected))
            (λ fresh.
              triple-bind (λ u. (Unconnected ph))
                (raise_if-Does (is_empty s.machine_id) (plain no_machine_id))
                (λ named.
                  triple-bind (λ c. (Unconnected ph))
                    (triple-lift (λ e. e) (cert_for_seed ph s.seed) (λ c e v p. p) (λ d e v p. p))
                    (λ cert.
                      triple-bind (λ u. (Unconnected ph))
                        (progress-Does ph (advance stage_starting) (λ s p. p))
                        (λ starting.
                          triple-bind (λ a. (Unconnected ph)) arm-Does
                            (λ armed.
                              triple-bind (λ u. (Unconnected ph))
                                (raise_if-Does (not armed) err_cancelled)
                                (λ refused. pure-Does cert)))))))

  left-Left :
      (out : Result Error (Unit {0}) × HostOf ph) → Left (some out) → Left (some (left ph out))
  unfolding recorded arm_cancel
  left-Left (ok u, h) q = record {
    conn = q.conn;
    connected = q.connected;
    asked = q.asked;
    on_curve = q.on_curve;
  }
  left-Left (err e, h) q = q

  -- On a session that has no connection yet: a connect that succeeds leaves the session with a
  -- connection and with a challenge point that is on the curve; one that fails, in whatever attempt and
  -- at whatever step, leaves it with no connection.
  pub connect-Left :
      (fuel : ℕ) (h : HostOf ph) → Unconnected ph h.session → Left (connect ph fuel h)
  unfolding connect recorded
  connect-Left fuel h p = go (prepare ph h) (prepare-Does.run h p)
    where
      ends :
          (loop : Option (Result Error (Unit {0}) × HostOf ph))
          → Left loop
          → Left (elim loop [ none ↦ none | some out ↦ some (left ph out) ])
      ends none q = tt
      ends (some out) q = left-Left out q

      go :
          (out : Result Error ph.Cert × HostOf ph)
          → Post {E = Error} (view ph) (λ c. (Unconnected ph)) (λ e. (Unconnected ph)) out
          → Left (elim out.0 [
            | err e ↦ some (recorded ph (λ h'. (err e, h')) out.1)
            | ok cert ↦ elim (connect_loop ph fuel cert out.1) [
              | none ↦ none
              | some o ↦ some (left ph o)
            ]
          ])
      go (ok cert, t) q = ends (connect_loop ph fuel cert t) (loop-Left fuel cert t q)
      go (err e, t) q = q
