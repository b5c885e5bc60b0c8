-- ===== src/Session/Waits.antt =====
-- How many waits the context of `Connect` leaves.
use synctang.Action.{lift}
use synctang.Action.Triple.{Triple, Post, triple-bind, triple-lift, both-Post}
use synctang.Network.Config.{NetworkConfig}
use synctang.Progress.{Progress, advance, begin_attempt, first_stage}
use synctang.Session.Connect.{
  dial_machine, watch_context, check_request, read_recover_request, connect_once, progressing,
  connect_to, name_machine, keep_request, way_taken, stage_waiting_for_request, stage_request_ready,
}
use synctang.Session.Failure.{Error, because, with_kind, failure_hung_up}
use synctang.Session.Phone.{
  Phone, HostOf, Call, SessionOf, change, asks, receive, close_locked, or_close,
}
use synctang.Prelude.{
  ℕ, ◌≤◌, ◌<◌, ◌≡◌, inl, inr, false, Bytes, Option, Option-cases, Result, ok, err, arith,
}

-- A bound on the waits that the context leaves: a wait that the context outlives uses one of them, and
-- nothing that the phone does in between adds any.
pub record Clock (ph : Phone) : Type 0 where
  pub left : ph.World → ℕ
  pub wait_uses : (w : ph.World) → (ph.deadline w).0 ≡ false → left (ph.deadline w).1 < left w
  pub look_adds : (w : ph.World) → left (ph.interrupted w).1 ≤ left w
  pub dial_adds :
      (cert : ph.Cert) (machine direct : Bytes) (n : NetworkConfig) (w : ph.World)
      → left (ph.dial cert machine direct n w).2 ≤ left w
  pub read_adds : (c : ph.Conn) (rest : Bytes) (w : ph.World) → left (ph.consumed c rest w) ≤ left w
  pub write_adds : (c : ph.Conn) (b : Bytes) (w : ph.World) → left (ph.write c b w).1 ≤ left w
  pub close_adds : (c : ph.Conn) (w : ph.World) → left (ph.close c w) ≤ left w

module _ (ph : Phone) (clock : Clock ph) (n : ℕ) where
  abbrev pub view : HostOf ph → ph.World
  view h = h.world

  abbrev pub Within : ph.World → Type 0
  Within w = clock.left w ≤ n

  abbrev pub Keeps : {A : Type 0} → Call ph A → Type 0
  Keeps m = Triple view Within m (λ a. Within) (λ e. Within)

  change-Keeps : (f : SessionOf ph → SessionOf ph) → Keeps (change ph f)
  change-Keeps f = record { run = λ h p. p }

  progress-Keeps : (f : Progress → Progress) → Keeps (progressing ph f)
  progress-Keeps f = record { run = λ h p. p }

  asks-Keeps : {A : Type 0} (f : SessionOf ph → A) → Keeps (asks ph f)
  asks-Keeps f = record { run = λ h p. p }

  dial-Keeps : (cert : ph.Cert) → Keeps (dial_machine ph cert)
  unfolding dial_machine
  dial-Keeps cert = record {
    run = λ h p. both-Post view Within (dial_machine ph cert h) (
        omega (
          arith,
          clock.dial_adds cert h.session.machine_id h.session.direct_addr h.session.network h.world,
        ));
  }

  watch-Keeps : (c : ph.Conn) → Keeps (watch_context ph c)
  unfolding watch_context
  watch-Keeps c = record { run = λ h p. ground (arith, clock.close_adds c h.world) }

  receive-Keeps : {V : Type 0} (u : Bytes → Option V) (c : ph.Conn) → Keeps (receive ph u c)
  unfolding receive
  receive-Keeps u c = record {
    run = λ h p.
        both-Post view Within (receive ph u c h) (omega (arith, clock.read_adds c _ h.world));
  }

  close_locked-Within : (h : HostOf ph) → Within h.world → Within (close_locked ph h).world
  unfolding close_locked
  close_locked-Within h p = elim (Option-cases h.session.conn) [
    | inl e ↦ ground arith
    | inr (c, e) ↦ ground (arith, clock.close_adds c h.world)
  ]

  or_close-Keeps :
      {A : Type 0} (f : Error → Error) (m : Call ph A) → Keeps m → Keeps (or_close ph f m)
  unfolding or_close
  or_close-Keeps {A} f m keeps = record { run = λ h p. go (m h) (keeps.run h p) }
    where
      go :
          (out : Result Error A × HostOf ph)
          → Post {E = Error} {A = A} view (λ a. Within) (λ e. Within) out
          → Post {E = Error} {A = A} view
              (λ a. Within)
              (λ e. Within)
              (elim out.0 as (λ r. Result Error A × HostOf ph) [
                | ok a ↦ (ok a, out.1)
                | err e ↦ (err (f e), close_locked ph out.1)
              ])
      go (ok a, t) q = q
      go (err e, t) q = close_locked-Within t q

  lift-Keeps : {A : Type 0} (r : Result Error A) → Keeps (lift (λ e. e) r)
  lift-Keeps r = triple-lift (λ e. e) r (λ c e v p. p) (λ d e v p. p)

  read-Keeps : (c : ph.Conn) → Keeps (read_recover_request ph c)
  unfolding read_recover_request
  read-Keeps c =
      triple-bind (λ req. Within)
        (or_close-Keeps (λ e. with_kind failure_hung_up (because e)) (receive ph ph.request_of c)
          (receive-Keeps ph.request_of c))
        (λ req.
          triple-bind (λ u. Within)
            (or_close-Keeps (λ e. e) (lift (λ e. e) (check_request ph req))
              (lift-Keeps (check_request ph req)))
            (λ valid.
              triple-bind (λ u. Within) (change-Keeps (keep_request ph req))
                (λ kept. progress-Keeps (advance stage_request_ready))))

  pub once-Keeps : (cert : ph.Cert) → Keeps (connect_once ph cert)
  unfolding connect_once
  once-Keeps cert =
      triple-bind (λ d. Within) (asks-Keeps (λ s. s.direct_addr))
        (λ direct.
          triple-bind (λ u. Within) (progress-Keeps (begin_attempt (first_stage direct)))
            (λ begun.
              triple-bind (λ c. Within) (dial-Keeps cert)
                (λ c.
                  triple-bind (λ u. Within) (progress-Keeps (way_taken ph direct))
                    (λ way.
                      triple-bind (λ u. Within) (progress-Keeps (advance stage_waiting_for_request))
                        (λ reached.
                          triple-bind (λ u. Within) (change-Keeps (connect_to ph c))
                            (λ connected.
                              triple-bind (λ u. Within) (watch-Keeps c)
                                (λ watched.
                                  triple-bind (λ h. Within)
                                    (or_close-Keeps because (receive ph ph.hello_of c)
                                      (receive-Keeps ph.hello_of c))
                                    (λ hello.
                                      triple-bind (λ u. Within)
                                        (change-Keeps (name_machine ph hello))
                                        (λ named. read-Keeps c)))))))))
