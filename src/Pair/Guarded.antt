-- ===== src/Pair/Guarded.antt =====
-- When `runPairOnce` changes the volume.
use synctang.Pair.Authorised.{IsGuarded, view, Quiet, Does, Known, Drawn, follow-Does}
use synctang.Action.Triple.{Post, triple-bind, post-both}
use synctang.Enrol.Host.{EnrolError}
use synctang.Enrol.Kept.{HostOf, log_of}
use synctang.Enrol.Reading.{EnrolPlan, plan_enrolment}
use synctang.Enrol.Untouched.{all_reads, Reads, triple-plan_enrolment}
use synctang.Pair.{pair_proof}
use synctang.Pair.Machine.{
  Desk, PairError, waiting, generating_nonce, sending_challenge, reading_request, pair_nonce_len,
  planning_failed, WindowOf, accept_peer, draw_nonce, challenge_peer, read_request, tell, fail_with,
  refuse_pairing, on_volume, is_proven, decide, open_window, run_pair_once,
}
use synctang.Pair.Messages.{
  PairRequest, pair_refused_code_mismatch, pair_refused_invalid_key, pair_refused_enrol_failed,
}
use synctang.Prelude.{
  ◌≡◌, refl, sym, inl, inr, Bool, Bool-cases, true, false, Bytes, bytes_eq→eq, Option, none, some,
  Result, Result-cases, ok, err, or_err, if◌then◌else◌,
}

module _ (d : Desk) where
  is_proven_sound :
      (peer_id nonce : Bytes) (req : PairRequest)
      → is_proven d peer_id nonce req ≡ true
      → req.proof ≡ pair_proof d.hmac d.secret d.machine_id peer_id req.pub_key nonce
  unfolding is_proven
  is_proven_sound peer_id nonce req h =
      sym (
        bytes_eq→eq (pair_proof d.hmac d.secret d.machine_id peer_id req.pub_key nonce) req.proof h)

  plan-Does :
      (peer_id nonce : Bytes) (req : PairRequest)
      → Does d
          (Known d peer_id nonce req)
          (on_volume d planning_failed (plan_enrolment d.system d.device req.pub_key peer_id))
          (λ plan. Known d peer_id nonce req)
  unfolding on_volume fail_with tell
  plan-Does peer_id nonce req = record {
    run = λ w k.
        go w (plan_enrolment d.system d.device req.pub_key peer_id w.host)
          (post-both (log_of d.system) Reads
            (plan_enrolment d.system d.device req.pub_key peer_id w.host)
            ((triple-plan_enrolment d.system d.device d.existing_passphrase req.pub_key peer_id).run
              w.host k.0))
          (k.1, k.2, k.3);
  }
    where
      go :
          (w : WindowOf d) (out : Result EnrolError EnrolPlan × HostOf d.system)
          → all_reads out.1.log ≡ true
          → (w.peer ≡ some peer_id) × (w.nonce ≡ nonce) × (w.request ≡ some req)
          → Post {E = PairError} {A = EnrolPlan}
              (view d)
              (λ plan. Known d peer_id nonce req)
              (λ e. (IsGuarded d))
              (elim out.0 as (λ r. Result PairError EnrolPlan × WindowOf d) [
                | ok a ↦ (ok a, record w { host = out.1 })
                | err e ↦
                    fail_with d pair_refused_enrol_failed
                      (planning_failed e)
                      (record w { host = out.1 })
              ])
      go w (ok plan, h) q (connected, drawn, received) = (q, connected, drawn, received)
      go w (err e, h) q k = inl q

  refuse-Does :
      (reason : Bytes) (P : WindowOf d → Type 0)
      → ((w : WindowOf d) → P w → Quiet d w)
      → Does d P (refuse_pairing d reason) (λ u. (IsGuarded d))
  unfolding refuse_pairing fail_with tell
  refuse-Does reason P quiet = record { run = λ w p. inl (quiet w p) }

  decide-Does :
      (peer_id nonce : Bytes) (req : PairRequest)
      → Does d (Known d peer_id nonce req) (decide d peer_id nonce req) (λ u. (IsGuarded d))
  unfolding decide
  decide-Does peer_id nonce req = elim (Bool-cases (is_proven d peer_id nonce req)) [
    | inr e ↦ rw e (refuse-Does pair_refused_code_mismatch (Known d peer_id nonce req) (λ w k. k.0))
    | inl e ↦ elim (Result-cases (d.system.group.point_to_x req.pub_key)) [
      | inr (z, c) ↦
          rw (e, c) (refuse-Does pair_refused_invalid_key (Known d peer_id nonce req) (λ w k. k.0))
      | inl (x, c) ↦
          rw (e, c)
            (triple-bind (λ plan. Known d peer_id nonce req) (plan-Does peer_id nonce req)
              (follow-Does d peer_id nonce req x (is_proven_sound peer_id nonce req e) c))
    ]
  ]

  accept-Does : Does d (Quiet d) (accept_peer d) (λ peer_id w. Quiet d w × (w.peer ≡ some peer_id))
  unfolding accept_peer
  accept-Does = record { run = λ w q. go w (d.listen w.net) q }
    where
      go :
          (w : WindowOf d) (out : Option Bytes × d.Net)
          → Quiet d w
          → Post {E = PairError} {A = Bytes}
              (view d)
              (λ peer_id v. Quiet d v × (v.peer ≡ some peer_id))
              (λ e. (IsGuarded d))
              (or_err waiting out.0, record w { net = out.1; peer = out.0 })
      go w (none, n) q = inl q
      go w (some p, n) q = (q, refl)

  draw-Does :
      (peer_id : Bytes)
      → Does d
          (λ w. Quiet d w × (w.peer ≡ some peer_id))
          (draw_nonce d)
          (λ nonce. Drawn d peer_id nonce)
  unfolding draw_nonce
  draw-Does peer_id = record {
    run = λ w k. go w (d.system.rand_read pair_nonce_len w.host.source) k;
  }
    where
      go :
          (w : WindowOf d) (out : Option Bytes × d.system.group.Source)
          → Quiet d w × (w.peer ≡ some peer_id)
          → Post {E = PairError} {A = Bytes}
              (view d)
              (λ nonce. Drawn d peer_id nonce)
              (λ e. (IsGuarded d))
              (elim out.0 as (λ r. Result PairError Bytes × WindowOf d) [
                | none ↦
                    (err generating_nonce, record w { host = record w.host { source = out.1 } })
                | some nonce ↦
                    (ok nonce, record w { host = record w.host { source = out.1 }; nonce = nonce })
              ])
      go w (none, src) (q, p) = inl q
      go w (some nonce, src) (q, p) = (q, p, refl)

  challenge-Does :
      (peer_id nonce : Bytes)
      → Does d (Drawn d peer_id nonce) (challenge_peer d nonce) (λ u. Drawn d peer_id nonce)
  unfolding challenge_peer
  challenge-Does peer_id nonce = record {
    run = λ w k. go w (d.send_challenge (record { nonce = nonce; name = d.machine_name }) w.net) k;
  }
    where
      go :
          (w : WindowOf d) (out : Bool × d.Net)
          → Drawn d peer_id nonce w
          → Post {E = PairError} {A = Unit {0}}
              (view d)
              (λ u. Drawn d peer_id nonce)
              (λ e. (IsGuarded d))
              (if out.0 then ok tt else err sending_challenge, record w { net = out.1 })
      go w (true, n) k = k
      go w (false, n) k = inl k.0

  read-Does :
      (peer_id nonce : Bytes)
      → Does d (Drawn d peer_id nonce) (read_request d) (λ req. Known d peer_id nonce req)
  unfolding read_request
  read-Does peer_id nonce = record { run = λ w k. go w (d.receive_request w.net) k }
    where
      go :
          (w : WindowOf d) (out : Option PairRequest × d.Net)
          → Drawn d peer_id nonce w
          → Post {E = PairError} {A = PairRequest}
              (view d)
              (λ req. Known d peer_id nonce req)
              (λ e. (IsGuarded d))
              (or_err reading_request out.0, record w { net = out.1; request = out.0 })
      go w (none, n) (q, p, r) = inl q
      go w (some req, n) (q, p, r) = (q, p, r, refl)

  -- Pairing leaves the volume alone, with no run of cryptsetup but those that read, unless a request has
  -- been received that proves the code for this machine, the peer of the handshake, the key it offers
  -- and the nonce of this conversation, the key is a point of the curve, and the operator has said yes,
  -- or pairing was started with nobody to ask.
  pub run_pair_once-IsGuarded :
      (h : HostOf d.system) (n : d.Net)
      → all_reads h.log ≡ true
      → IsGuarded d (run_pair_once d (open_window d h n)).1
  unfolding run_pair_once
  run_pair_once-IsGuarded h n quiet =
      post-both (view d) (IsGuarded d) (run_pair_once d (open_window d h n))
        (all.run (open_window d h n) quiet)
    where
      all : Does d (Quiet d) (run_pair_once d) (λ u. (IsGuarded d))
      all =
          triple-bind (λ peer_id v. Quiet d v × (v.peer ≡ some peer_id)) accept-Does
            (λ peer_id.
              triple-bind (λ nonce. Drawn d peer_id nonce) (draw-Does peer_id)
                (λ nonce.
                  triple-bind (λ u. Drawn d peer_id nonce) (challenge-Does peer_id nonce)
                    (λ challenged.
                      triple-bind (λ req. Known d peer_id nonce req) (read-Does peer_id nonce)
                        (λ req. decide-Does peer_id nonce req))))
