-- ===== src/Session/Patience.antt =====
-- How long `Connect` goes on, and the kinds of its failures.
use synctang.Session.Waits.{Clock, once-Keeps}
use synctang.Action.{lift, raise_if, pure}
use synctang.Action.Triple.{Triple, Post, triple-bind, triple-lift, post-both}
use synctang.Enrol.Entries.{is_empty}
use synctang.Enrol.Host.{is_some}
use synctang.Progress.{advance}
use synctang.Session.Connect.{
  connect_once, after_failure, connect_loop, prepare, connect, is_cancelled, cert_for_seed, left,
  arm, arm_cancel, progressing, stage_starting,
}
use synctang.Session.Failure.{
  Error, plain, kind_of_error, kind_of, err_cancelled, failure_none, failure_other,
  failure_cancelled, failure_unreachable, already_connected, no_machine_id,
}
use synctang.Session.Phone.{Phone, HostOf, Call, asks, recorded}
use synctang.Prelude.{
  ℕ, zero, suc, ◌≤◌, ◌<◌, ◌≡◌, refl, ◌⊎◌, inl, inr, Bool, true, false, not, [], Bytes, Option, none,
  some, Result, ok, err, arith,
}

module _ (ph : Phone) (clock : Clock ph) where
  attempt_adds :
      (cert : ph.Cert) (h : HostOf ph)
      → clock.left (connect_once ph cert h).1.world ≤ clock.left h.world
  attempt_adds cert h =
      post-both (λ (t : HostOf ph). t.world) (λ w. clock.left w ≤ clock.left h.world)
        (connect_once ph cert h)
        ((once-Keeps ph clock (clock.left h.world) cert).run h (omega arith))

  after_failure-waits :
      (e : Error) (h : HostOf ph)
      → (after_failure ph e h).0 ≡ none
      → clock.left (after_failure ph e h).1.world < clock.left h.world
  unfolding after_failure is_cancelled
  after_failure-waits e h n =
      ground (arith, clock.wait_uses (ph.interrupted h.world).1, clock.look_adds h.world)

  -- The kinds of failure that `Connect` has.
  abbrev pub IsConnectKind : ℕ × Bytes → Type 0
  IsConnectKind k =
      (k ≡ (failure_other, [])) ⊎ (k ≡ (failure_cancelled, [])) ⊎ (k ≡ (failure_unreachable, []))

  -- The loop has returned, and an error has one of the kinds.
  abbrev Ends : Option (Result Error (Unit {0}) × HostOf ph) → Type 0
  Ends none = ⊥
  Ends (some (ok u, h)) = Unit {0}
  Ends (some (err e, h)) = IsConnectKind (kind_of_error e)

  after_failure-Ends :
      (e e' : Error) (h : HostOf ph)
      → (after_failure ph e h).0 ≡ some e'
      → IsConnectKind (kind_of_error e')
  unfolding after_failure kind_of_error
  after_failure-Ends e e' h s = ground arith

  loop-Ends :
      (fuel : ℕ) (cert : ph.Cert) (h : HostOf ph)
      → clock.left h.world < fuel
      → Ends (connect_loop ph fuel cert h)
  unfolding connect_loop
  loop-Ends zero cert h lt = absurd (omega arith)
  loop-Ends (suc fuel) cert h lt =
      go (connect_once ph cert h) (attempt_adds cert h) (λ t. loop-Ends fuel cert t)
    where
      next :
          (e : Error) (out : Option Error × HostOf ph)
          (loop : Option (Result Error (Unit {0}) × HostOf ph))
          → ((e' : Error) → out.0 ≡ some e' → IsConnectKind (kind_of_error e'))
          → (out.0 ≡ none → Ends loop)
          → Ends (elim out.0 [ some e' ↦ some (err e', out.1) | none ↦ loop ])
      next e (some e', t) loop kinds goes = kinds e' refl
      next e (none, t) loop kinds goes = goes refl

      go :
          (out : Result Error (Unit {0}) × HostOf ph)
          → clock.left out.1.world ≤ clock.left h.world
          → ((t : HostOf ph) → clock.left t.world < fuel → Ends (connect_loop ph fuel cert t))
          → Ends (elim out.0 [
            | ok u ↦ some (ok tt, out.1)
            | err e ↦
                let (stop, h2) = after_failure ph e out.1 in
                elim stop [ some e' ↦ some (err e', h2) | none ↦ connect_loop ph fuel cert h2 ]
          ])
      go (ok u, t) le loops = tt
      go (err e, t) le loops =
          next e (after_failure ph e t) (connect_loop ph fuel cert (after_failure ph e t).1)
            (λ e' s. after_failure-Ends e e' t s)
            (λ s. loops (after_failure ph e t).1 (omega (arith, after_failure-waits e t s)))

  -- The call has returned, and the record of its outcome.
  abbrev pub Returns : Option (Result Error (Unit {0}) × HostOf ph) → Type 0
  Returns none = ⊥
  Returns (some (ok u, h)) = h.session.failure ≡ (failure_none, [])
  Returns (some (err e, h)) = IsConnectKind h.session.failure

  module _ (n : ℕ) where
    abbrev Starts : {A : Type 0} → Call ph A → Type 0
    Starts m =
        Triple (λ (h : HostOf ph). h.world) (λ w. clock.left w < n) m (λ a w. clock.left w < n)
          (λ e w. IsConnectKind (kind_of_error e))

    refuses : (b : Bool) (e : Error) → IsConnectKind (kind_of_error e) → Starts (raise_if b e)
    refuses true e k = record { run = λ h p. k }
    refuses false e k = record { run = λ h p. p }

    certifies : (seed : Bytes) → Starts (lift (λ e. e) (cert_for_seed ph seed))
    unfolding cert_for_seed kind_of_error
    certifies seed =
        triple-lift (λ e. e) (cert_for_seed ph seed) (λ c e v p. p) (λ d e v p. ground arith)

    arms : Starts (arm ph)
    unfolding arm arm_cancel
    arms = record { run = λ h p. ground arith }

    asks_session : Starts (asks ph (λ s. s))
    asks_session = record { run = λ h p. p }

    Starts-stage : Starts (progressing ph (advance stage_starting))
    Starts-stage = record { run = λ h p. p }

    gives : (cert : ph.Cert) → Starts (pure cert)
    gives cert = record { run = λ h p. p }

    prepare-Starts : Starts (prepare ph)
    unfolding prepare kind_of_error
    prepare-Starts =
        triple-bind (λ s w. clock.left w < n) asks_session
          (λ s.
            triple-bind (λ u w. clock.left w < n)
              (refuses (is_some s.conn) (plain already_connected) (inl refl))
              (λ fresh.
                triple-bind (λ u w. clock.left w < n)
                  (refuses (is_empty s.machine_id) (plain no_machine_id) (inl refl))
                  (λ named.
                    triple-bind (λ c w. clock.left w < n) (certifies s.seed)
                      (λ cert.
                        triple-bind (λ u w. clock.left w < n) Starts-stage
                          (λ starting.
                            triple-bind (λ a w. clock.left w < n) arms
                              (λ armed.
                                triple-bind (λ u w. clock.left w < n)
                                  (refuses (not armed) err_cancelled (inr (inl refl)))
                                  (λ refused. gives cert)))))))

  left-Returns :
      (out : Result Error (Unit {0}) × HostOf ph) → Ends (some out) → Returns (some (left ph out))
  unfolding recorded arm_cancel kind_of
  left-Returns (ok u, h) q = refl
  left-Returns (err e, h) q = q

  -- Where the context ends after fewer waits than the fuel, `Connect` returns, and records either no
  -- failure, or one of the kinds other, cancelled and unreachable: the kinds of a hang-up and of a breach
  -- of the protocol, which its attempts find, are not reported.
  pub connect-Returns :
      (fuel : ℕ) (h : HostOf ph) → clock.left h.world < fuel → Returns (connect ph fuel h)
  unfolding connect recorded kind_of
  connect-Returns fuel h lt = go (prepare ph h) ((prepare-Starts fuel).run h lt)
    where
      ends :
          (loop : Option (Result Error (Unit {0}) × HostOf ph))
          → Ends loop
          → Returns (elim loop [ none ↦ none | some out ↦ some (left ph out) ])
      ends none q = q
      ends (some out) q = left-Returns out q

      go :
          (out : Result Error ph.Cert × HostOf ph)
          → Post {E = Error}
              (λ (h : HostOf ph). h.world)
              (λ c w. clock.left w < fuel)
              (λ e w. IsConnectKind (kind_of_error e))
              out
          → Returns (elim out.0 [
            | err e ↦ some (recorded ph (λ h'. (err e, h')) out.1)
            | ok cert ↦ elim (connect_loop ph fuel cert out.1) [
              | none ↦ none
              | some o ↦ some (left ph o)
            ]
          ])
      go (ok cert, t) q = ends (connect_loop ph fuel cert t) (loop-Ends fuel cert t q)
      go (err e, t) q = q
