-- ===== src/Pair/Authorised.antt =====
-- What allows a pairing to change the volume, and the calls that need it.
use synctang.Action.Triple.{Triple, Post, triple-bind}
use synctang.Enrol.Changes.{enrol_recipient, replace_recipient}
use synctang.Enrol.Host.{EnrolError, Run}
use synctang.Enrol.Kept.{HostOf}
use synctang.Enrol.Reading.{ExistingRecipient, EnrolPlan, plan_add, plan_already, plan_replace}
use synctang.Enrol.Untouched.{all_reads}
use synctang.Pair.{pair_proof}
use synctang.Pair.Machine.{
  Desk, PairError, telling_failed, replacing_failed, enrolling_failed, WindowOf, Pairing, tell,
  linger, success, fail_with, refuse_pairing, tell_success, on_volume, ask_confirm, ask_replace,
  asked, enrol_peer, replace_peer, follow_plan,
}
use synctang.Pair.Messages.{
  PairRequest, PairResult, pair_refused_declined, pair_refused_enrol_failed,
}
use synctang.Prelude.{
  ◌≡◌, refl, ◌⊎◌, inl, inr, Bool, true, false, List, ◌∷◌, Bytes, Option, Option-cases, none, some,
  Result, ok, err, arith, if◌then◌else◌,
}

module _ (d : Desk) where
  -- What stands between a peer and the volume: the request that was received proves the code for this
  -- machine, the peer of the handshake, the key it offers and the nonce of this conversation; the key is
  -- a point; and the operator has said yes, or there is nobody to ask.
  pub record IsAuthorised (peer : Option Bytes) (nonce : Bytes) (request : Option PairRequest)
      (said : Option Bool) : Type 0 where
    pub peer_id : Bytes
    pub connected : peer ≡ some peer_id
    pub req : PairRequest
    pub received : request ≡ some req
    pub proven : req.proof ≡ pair_proof d.hmac d.secret d.machine_id peer_id req.pub_key nonce
    pub x : Bytes
    pub on_curve : d.system.group.point_to_x req.pub_key ≡ ok x
    pub agreed : (said ≡ some true) ⊎ (d.confirm ≡ none)

  abbrev pub IsGuarded : WindowOf d → Type 0
  IsGuarded w = (all_reads w.host.log ≡ true) ⊎ IsAuthorised w.peer w.nonce w.request w.said

  abbrev pub view : WindowOf d → WindowOf d
  view w = w

  abbrev pub Does :
      {A : Type 0} → (WindowOf d → Type 0) → Pairing d A → (A → WindowOf d → Type 0) → Type 0
  Does P m Q = Triple view P m Q (λ e. IsGuarded)

  abbrev pub Quiet : WindowOf d → Type 0
  Quiet w = all_reads w.host.log ≡ true

  -- What is known once a nonce has been drawn for a peer, and once its request has been received.
  abbrev pub Drawn : Bytes → Bytes → WindowOf d → Type 0
  Drawn peer_id nonce w = Quiet w × (w.peer ≡ some peer_id) × (w.nonce ≡ nonce)

  abbrev pub Known : Bytes → Bytes → PairRequest → WindowOf d → Type 0
  Known peer_id nonce req w =
      Quiet w × (w.peer ≡ some peer_id) × (w.nonce ≡ nonce) × (w.request ≡ some req)

  abbrev Authorised : WindowOf d → Type 0
  Authorised w = IsAuthorised w.peer w.nonce w.request w.said

  if-Post :
      (b : Bool) (x y : Result PairError (Unit {0}) × WindowOf d)
      → (b ≡ true → Post {E = PairError} {A = Unit {0}} view (λ u. IsGuarded) (λ e. IsGuarded) x)
      → (b ≡ false → Post {E = PairError} {A = Unit {0}} view (λ u. IsGuarded) (λ e. IsGuarded) y)
      → Post {E = PairError} {A = Unit {0}} view
          (λ u. IsGuarded)
          (λ e. IsGuarded)
          (if b then x else y)
  if-Post true x y p q = p refl
  if-Post false x y p q = q refl

  tell_success-Does :
      (P : WindowOf d → Type 0)
      → ((w : WindowOf d) (n : d.Net) (rs : List PairResult)
          → P w
          → IsGuarded (record w { net = n; results = rs }))
      → Does P (tell_success d) (λ u. IsGuarded)
  unfolding tell_success tell
  tell_success-Does P keeps = record {
    run = λ w p.
        if-Post (tell d success w).0 (ok tt, linger d (tell d success w).1)
          (err telling_failed, (tell d success w).1)
          (λ e. keeps w (d.wait_for_close (tell d success w).1.net) (success ∷ w.results) p)
          (λ e. keeps w (tell d success w).1.net (success ∷ w.results) p);
  }

  -- A call on the volume once it is allowed.
  on_volume-Authorised :
      {A : Type 0} (f : EnrolError → PairError) (m : Run d.system A)
      → Does Authorised (on_volume d f m) (λ a. Authorised)
  unfolding on_volume fail_with tell
  on_volume-Authorised {A} f m = record { run = λ w a. go w (m w.host) a }
    where
      go :
          (w : WindowOf d) (out : Result EnrolError A × HostOf d.system)
          → Authorised w
          → Post {E = PairError} {A = A} view
              (λ a. Authorised)
              (λ e. IsGuarded)
              (elim out.0 as (λ r. Result PairError A × WindowOf d) [
                | ok a ↦ (ok a, record w { host = out.1 })
                | err e ↦ fail_with d pair_refused_enrol_failed (f e) (record w { host = out.1 })
              ])
      go w (ok b, h) a = a
      go w (err e, h) a = inr a

  enrol-Does :
      (peer_id : Bytes) (req : PairRequest)
      → Does Authorised (enrol_peer d peer_id req) (λ u. IsGuarded)
  unfolding enrol_peer
  enrol-Does peer_id req =
      triple-bind (λ a. Authorised)
        (on_volume-Authorised enrolling_failed (
          enrol_recipient d.system d.device d.existing_passphrase req.pub_key d.machine_name
            d.machine_id peer_id))
        (λ a. tell_success-Does Authorised (λ w n rs p. inr p))

  replace-Does :
      (peer_id : Bytes) (req : PairRequest) (existing : ExistingRecipient)
      → Does Authorised (replace_peer d peer_id req existing) (λ u. IsGuarded)
  unfolding replace_peer
  replace-Does peer_id req existing =
      triple-bind (λ a. Authorised)
        (on_volume-Authorised replacing_failed (
          replace_recipient d.system d.device d.existing_passphrase req.pub_key peer_id peer_id
            existing.keyslot))
        (λ a. tell_success-Does Authorised (λ w n rs p. inr p))

  module _ (peer_id nonce : Bytes) (req : PairRequest) (x : Bytes)
      (proven : req.proof ≡ pair_proof d.hmac d.secret d.machine_id peer_id req.pub_key nonce)
      (on_curve : d.system.group.point_to_x req.pub_key ≡ ok x) where
    asked-Does :
        (question : WindowOf d → Bool × WindowOf d) (go_on : Pairing d (Unit {0}))
        → ((w : WindowOf d) → Known peer_id nonce req w → Known peer_id nonce req (question w).1)
        → ((w : WindowOf d)
            → (question w).0 ≡ true
            → ((question w).1.said ≡ some true) ⊎ (d.confirm ≡ none))
        → Does Authorised go_on (λ u. IsGuarded)
        → Does (Known peer_id nonce req) (asked d question go_on) (λ u. IsGuarded)
    unfolding refuse_pairing fail_with tell
    asked-Does question go_on keeps says goes = record {
      run = λ w k.
          let (quiet, connected, drawn, received) = keeps w k in
          if-Post (question w).0 (go_on (question w).1)
            (refuse_pairing d pair_refused_declined (question w).1)
            (λ e. goes.run (question w).1 (record {
              peer_id = peer_id;
              connected = connected;
              req = req;
              received = received;
              proven = rw drawn proven;
              x = x;
              on_curve = on_curve;
              agreed = says w e;
            }))
            (λ e. inl quiet);
    }

    replace_question :
        (existing : ExistingRecipient) (kid : Bytes) (w : WindowOf d)
        → (Known peer_id nonce req w
            → Known peer_id nonce req (ask_replace d peer_id existing kid w).1)
          × ((ask_replace d peer_id existing kid w).0 ≡ true
              → ((ask_replace d peer_id existing kid w).1.said ≡ some true) ⊎ (d.confirm ≡ none))
    unfolding ask_replace
    replace_question existing kid w = elim (Option-cases d.confirm_replace) [
      | inl e ↦ ground arith
      | inr (ask, e) ↦ ground arith
    ]

    confirm_question :
        (w : WindowOf d)
        → (Known peer_id nonce req w
            → Known peer_id nonce req (ask_confirm d peer_id req.pub_key w).1)
          × ((ask_confirm d peer_id req.pub_key w).0 ≡ true
              → ((ask_confirm d peer_id req.pub_key w).1.said ≡ some true) ⊎ (d.confirm ≡ none))
    unfolding ask_confirm
    confirm_question w = elim (Option-cases d.confirm) [
      | inl e ↦ ground arith
      | inr (ask, e) ↦ ground arith
    ]

    pub follow-Does :
        (plan : EnrolPlan)
        → Does (Known peer_id nonce req) (follow_plan d peer_id req plan) (λ u. IsGuarded)
    unfolding follow_plan
    follow-Does (plan_already existing) =
        tell_success-Does (Known peer_id nonce req) (λ w n rs p. inl p.0)
    follow-Does (plan_replace existing) =
        asked-Does (ask_replace d peer_id existing (d.system.crypto.sha256 req.pub_key))
          (replace_peer d peer_id req existing)
          (λ w. (replace_question existing (d.system.crypto.sha256 req.pub_key) w).0)
          (λ w. (replace_question existing (d.system.crypto.sha256 req.pub_key) w).1)
          (replace-Does peer_id req existing)
    follow-Does plan_add =
        asked-Does (ask_confirm d peer_id req.pub_key) (enrol_peer d peer_id req)
          (λ w. (confirm_question w).0) (λ w. (confirm_question w).1) (enrol-Does peer_id req)
