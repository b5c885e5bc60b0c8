-- ===== src/Session/Attempt.antt =====
-- What a session holds after one attempt of `Connect`.
use synctang.Action.{lift}
use synctang.Action.Triple.{Triple, Post, triple-bind, both-Post}
use synctang.Enrol.Entries.{is_empty}
use synctang.Mr1.Finish.{validate_challenge_point}
use synctang.Progress.{Progress, advance, begin_attempt, first_stage}
use synctang.Session.Connect.{
  stage_waiting_for_request, connect_to, name_machine, keep_request, way_taken, stage_request_ready,
  dial_machine, watch_context, check_request, read_recover_request, connect_once, progressing,
}
use synctang.Session.Failure.{Error, with_kind, failure_hung_up, because}
use synctang.Session.Phone.{
  Phone, HostOf, Call, SessionOf, change, asks, receive, close_locked, or_close,
}
use synctang.Wire.{RecoverRequest}
use synctang.Prelude.{
  ◌≡◌, refl, Bool-cases, false, Bytes, Option, Option-cases, none, some, Result, Result-cases, ok,
  err, arith, inl, inr,
}

module _ (ph : Phone) where
  abbrev pub view : HostOf ph → SessionOf ph
  view h = h.session

  abbrev pub Unconnected : SessionOf ph → Type 0
  Unconnected s = s.conn ≡ none

  abbrev On : ph.Conn → SessionOf ph → Type 0
  On c s = s.conn ≡ some c

  -- The machine has sent a challenge point that is on the curve.
  pub record IsReady (s : SessionOf ph) : Type 0 where
    pub conn : ph.Conn
    pub connected : s.conn ≡ some conn
    pub asked : is_empty s.x ≡ false
    pub on_curve : validate_challenge_point ph.group s.x ≡ ok tt

  abbrev pub Does :
      {A : Type 0} → (SessionOf ph → Type 0) → Call ph A → (A → SessionOf ph → Type 0) → Type 0
  Does P m Q = Triple view P m Q (λ e. Unconnected)

  change-Does :
      {P Q : SessionOf ph → Type 0} (f : SessionOf ph → SessionOf ph)
      → ((s : SessionOf ph) → P s → Q (f s))
      → Does P (change ph f) (λ u. Q)
  change-Does f h = record { run = λ s p. h s.session p }

  pub asks-Does :
      {A : Type 0} {P : SessionOf ph → Type 0} (f : SessionOf ph → A) → Does P (asks ph f) (λ a. P)
  asks-Does f = record { run = λ s p. p }

  close_locked-Unconnected : (h : HostOf ph) → Unconnected (close_locked ph h).session
  unfolding close_locked
  close_locked-Unconnected h = elim (Option-cases h.session.conn) [
    | inl e ↦ ground arith
    | inr (c, e) ↦ ground arith
  ]

  or_close-Does :
      {A : Type 0} {P : SessionOf ph → Type 0} {Q : A → SessionOf ph → Type 0} (f : Error → Error)
      (m : Call ph A)
      → ((h : HostOf ph) → P h.session → (a : A) → ((m h).0 ≡ ok a) → Q a (m h).1.session)
      → Does P (or_close ph f m) Q
  unfolding or_close
  or_close-Does {A} {P} {Q} f m keeps = record { run = λ h p. go (m h) (λ a e. keeps h p a e) }
    where
      go :
          (out : Result Error A × HostOf ph)
          → ((a : A) → out.0 ≡ ok a → Q a out.1.session)
          → Post {E = Error} {A = A} view Q
              (λ e. Unconnected)
              (elim out.0 as (λ r. Result Error A × HostOf ph) [
                | ok a ↦ (ok a, out.1)
                | err e ↦ (err (f e), close_locked ph out.1)
              ])
      go (ok a, t) q = q a refl
      go (err e, t) q = close_locked-Unconnected t

  dial-Does : (cert : ph.Cert) → Does Unconnected (dial_machine ph cert) (λ c. Unconnected)
  unfolding dial_machine
  dial-Does cert = record { run = λ h p. both-Post view Unconnected (dial_machine ph cert h) p }

  watch-Does : (c : ph.Conn) → Does (On c) (watch_context ph c) (λ u. On c)
  unfolding watch_context
  watch-Does c = record { run = λ h p. p }

  receive-On :
      {V : Type 0} (u : Bytes → Option V) (c d : ph.Conn) (h : HostOf ph)
      → On c h.session
      → On c (receive ph u d h).1.session
  unfolding receive
  receive-On u c d h p = p

  -- A check changes nothing, and gives what it says.
  lift-On :
      (c : ph.Conn) (r : Result Error (Unit {0})) (h : HostOf ph) (u : Unit {0})
      → On c h.session
      → (lift {S = HostOf ph} (λ (e : Error). e) r h).0 ≡ ok u
      → On c (lift {S = HostOf ph} (λ (e : Error). e) r h).1.session × (r ≡ ok tt)
  lift-On c (ok tt) h u p e = (p, refl)
  lift-On c (err d) h u p e = absurd (ground arith)

  check-Does :
      (c : ph.Conn) (req : RecoverRequest)
      → Does
          (On c)
          (or_close ph (λ e. e) (lift (λ e. e) (check_request ph req)))
          (λ u s. On c s × (check_request ph req ≡ ok tt))
  check-Does c req =
      or_close-Does (λ e. e) (lift (λ e. e) (check_request ph req))
        (λ h p u e. lift-On c (check_request ph req) h u p e)

  check_request_sound :
      (req : RecoverRequest)
      → check_request ph req ≡ ok tt
      → (is_empty req.x ≡ false) × (validate_challenge_point ph.group req.x ≡ ok tt)
  unfolding check_request
  check_request_sound req e = elim (Bool-cases (is_empty req.x)) [
    | inl b ↦ absurd (ground arith)
    | inr b ↦ elim (Result-cases (validate_challenge_point ph.group req.x)) [
      | inl (tt, d) ↦ (b, d)
      | inr (d, f) ↦ absurd (ground arith)
    ]
  ]

  pub progress-Does :
      {P : SessionOf ph → Type 0} (f : Progress → Progress)
      → ((s : SessionOf ph) → P s → P (record s { progress = f s.progress }))
      → Does P (progressing ph f) (λ u. P)
  progress-Does f h = record { run = λ s p. h s.session p }

  read-Does : (c : ph.Conn) → Does (On c) (read_recover_request ph c) (λ u. IsReady)
  unfolding read_recover_request
  read-Does c =
      triple-bind (λ req. On c)
        (or_close-Does (λ e. with_kind failure_hung_up (because e)) (receive ph ph.request_of c)
          (λ h p a e. receive-On ph.request_of c c h p))
        (λ req.
          triple-bind (λ u s. On c s × (check_request ph req ≡ ok tt)) (check-Does c req)
            (λ valid.
              triple-bind (λ u. IsReady)
                (change-Does (keep_request ph req) (λ s p.
                  let (b, d) = check_request_sound req p.1 in
                  record { conn = c; connected = p.0; asked = b; on_curve = d }))
                (λ kept. progress-Does (advance stage_request_ready) (λ s p. record {
                  conn = p.conn;
                  connected = p.connected;
                  asked = p.asked;
                  on_curve = p.on_curve;
                }))))

  pub once-Does : (cert : ph.Cert) → Does Unconnected (connect_once ph cert) (λ u. IsReady)
  unfolding connect_once
  once-Does cert =
      triple-bind (λ d. Unconnected) (asks-Does (λ s. s.direct_addr))
        (λ direct.
          triple-bind (λ u. Unconnected)
            (progress-Does (begin_attempt (first_stage direct)) (λ s p. p))
            (λ begun.
              triple-bind (λ c. Unconnected) (dial-Does cert)
                (λ c.
                  triple-bind (λ u. Unconnected) (progress-Does (way_taken ph direct) (λ s p. p))
                    (λ way.
                      triple-bind (λ u. Unconnected)
                        (progress-Does (advance stage_waiting_for_request) (λ s p. p))
                        (λ reached.
                          triple-bind (λ u. On c) (change-Does (connect_to ph c) (λ s p. refl))
                            (λ connected.
                              triple-bind (λ u. On c) (watch-Does c)
                                (λ watched.
                                  triple-bind (λ u. On c)
                                    (or_close-Does because (receive ph ph.hello_of c)
                                      (λ h p a e. receive-On ph.hello_of c c h p))
                                    (λ hello.
                                      triple-bind (λ u. On c)
                                        (change-Does (name_machine ph hello) (λ s p. p))
                                        (λ named. read-Does c)))))))))
