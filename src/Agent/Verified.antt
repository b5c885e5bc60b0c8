-- ===== src/Agent/Verified.antt =====
-- The log of `runExchange` (cmd/synctang-unlocker/agent.go): tests, deliveries and the report.
use synctang.Action.{raise_if}
use synctang.Action.Triple.{Post, Triple, triple-bind, triple-lift}
use synctang.Agent.Exchange.{
  Event, sent_hello, sent_request, received, tested, delivered, sent_result, Setting, Session, Talk,
  attempt, receive_response, start_challenge, recovered_secret, use_response, verdict, report,
  run_exchange,
}
use synctang.Agent.Peers.{
  AgentError, match_recipient, check_secret_length, does_not_open, delivering, sending_hello,
  sending_request, declined, reading_response, starting_challenge,
}
use synctang.Mr1.Start.{challenge_start}
use synctang.Enrol.Entries.{is_empty, luks_key_material}
use synctang.Mr1.Crypto.{Recipient, Mr1Error}
use synctang.Prelude.{
  ◌≡◌, Bool, true, false, not, ◌&&◌, List, [], ◌∷◌, Bytes, bytes_eq, bytes_eq_refl, Option, none,
  some, Result, ok, err, or_err, map_err, if◌then◌else◌, arith,
}
use synctang.Token.Codec.{Token}
use synctang.Wire.{RecoverResponse}

-- The latest event is a successful test of the key.
abbrev pub just_tested : Bytes → List Event → Bool
just_tested key (tested k true ∷ l) = bytes_eq k key
just_tested key (tested k false ∷ l) = false
just_tested key (sent_hello x b ∷ l) = false
just_tested key (sent_request x b ∷ l) = false
just_tested key (received x ∷ l) = false
just_tested key (delivered x b ∷ l) = false
just_tested key (sent_result x ∷ l) = false
just_tested key [] = false

-- Whatever was delivered had been tested successfully right before.
abbrev pub delivers_tested : List Event → Bool
delivers_tested [] = true
delivers_tested (delivered k b ∷ l) = just_tested k l && delivers_tested l
delivers_tested (tested k b ∷ l) = delivers_tested l
delivers_tested (sent_hello x b ∷ l) = delivers_tested l
delivers_tested (sent_request x b ∷ l) = delivers_tested l
delivers_tested (received x ∷ l) = delivers_tested l
delivers_tested (sent_result x ∷ l) = delivers_tested l

-- The latest event is a delivery that succeeded, right after a test of the key.
abbrev pub was_delivered : List Event → Bool
was_delivered (delivered k true ∷ l) = just_tested k l
was_delivered (delivered k false ∷ l) = false
was_delivered (tested k b ∷ l) = false
was_delivered (sent_hello x b ∷ l) = false
was_delivered (sent_request x b ∷ l) = false
was_delivered (received x ∷ l) = false
was_delivered (sent_result x ∷ l) = false
was_delivered [] = false

-- The last three events of an exchange that succeeded: the test, the delivery and the report.
abbrev pub ends_delivered : List Event → Bool
ends_delivered [] = false
ends_delivered (sent_result r ∷ l) = r.succeeded && was_delivered l
ends_delivered (tested k b ∷ l) = false
ends_delivered (delivered k b ∷ l) = false
ends_delivered (sent_hello x b ∷ l) = false
ends_delivered (sent_request x b ∷ l) = false
ends_delivered (received x ∷ l) = false

-- What the log of an exchange shows, by its outcome.
abbrev pub IsVerified : Result AgentError (Unit {0}) → List Event → Type 0
IsVerified (ok u) l = (delivers_tested l ≡ true) × (ends_delivered l ≡ true)
IsVerified (err e) l = delivers_tested l ≡ true

abbrev SessionOf : Setting → Type 0
SessionOf st = Session st.World st.system.group.Source

abbrev log_of : (st : Setting) → SessionOf st → List Event
log_of st s = s.log

abbrev Safe : List Event → Type 0
Safe l = delivers_tested l ≡ true

triple-attempt :
    (st : Setting) {P Q R : List Event → Type 0} (call : st.World → Bool × st.World)
    (event : Bool → Event) (e : AgentError)
    → ((l : List Event) → P l → Q (event true ∷ l))
    → ((l : List Event) → P l → R (event false ∷ l))
    → Triple (log_of st) P (attempt st call event e) (λ a. Q) (λ e. R)
unfolding attempt
triple-attempt st {P} {Q} {R} call event e hq hr = record { run = λ s p. go s p (call s.world) }
  where
    go :
        (s : SessionOf st) (p : P s.log) (out : Bool × st.World)
        → Post {E = AgentError} {A = Unit {0}}
            (log_of st)
            (λ a. Q)
            (λ e. R)
            (
              if out.0 then ok tt else err e,
              record { world = out.1; source = s.source; log = event out.0 ∷ s.log },
            )
    go s p (true, w) = hq s.log p
    go s p (false, w) = hr s.log p

module _ (st : Setting) where
  triple-receive : Triple (log_of st) Safe (receive_response st) (λ a. Safe) (λ e. Safe)
  unfolding receive_response
  triple-receive = record { run = λ s p. go s p (st.receive s.world) }
    where
      go :
          (s : SessionOf st) (p : Safe s.log) (out : Option RecoverResponse × st.World)
          → Post
              (log_of st)
              (λ a. Safe)
              (λ e. Safe)
              (
                or_err reading_response out.0,
                record { world = out.1; source = s.source; log = received out.0 ∷ s.log },
              )
      go s p (none, w) = p
      go s p (some r, w) = p

  triple-start_challenge :
      (c : Bytes) → Triple (log_of st) Safe (start_challenge st c) (λ a. Safe) (λ e. Safe)
  unfolding start_challenge
  triple-start_challenge c = record {
    run = λ s p.
        go s p (challenge_start st.system.group st.system.crypto st.system.rand_read c s.source);
  }
    where
      go :
          (s : SessionOf st) (p : Safe s.log)
          (out : Result Mr1Error (Bytes × Bytes) × st.system.group.Source)
          → Post
              (log_of st)
              (λ a. Safe)
              (λ e. Safe)
              (
                map_err starting_challenge out.0,
                record { world = s.world; source = out.1; log = s.log },
              )
      go s p (ok x, src) = p
      go s p (err e, src) = p

  abbrev Delivered : List Event → Type 0
  Delivered l = (delivers_tested l ≡ true) × (was_delivered l ≡ true)

  triple-use_response :
      (rec : Recipient) (e : Bytes) (resp : RecoverResponse)
      → Triple (log_of st) Safe (use_response st rec e resp) (λ a. Delivered) (λ e. Safe)
  unfolding use_response
  triple-use_response rec e resp =
      triple-bind (λ a. Safe)
        (triple-lift (λ e. e) (recovered_secret st rec e resp) (λ a h v p. p) (λ e h v p. p))
        (λ p.
          triple-bind (λ a. Safe)
            (triple-lift (λ e. e) (check_secret_length p) (λ a h v p. p) (λ e h v p. p))
            (λ right.
              triple-bind (λ a l. (just_tested (luks_key_material p) l ≡ true) × Safe l)
                (triple-attempt st (st.test (luks_key_material p)) (tested (luks_key_material p))
                  does_not_open (λ l h. (bytes_eq_refl (luks_key_material p), h)) (λ l h. h))
                (λ opens.
                  triple-attempt st (st.deliver (luks_key_material p))
                    (delivered (luks_key_material p)) delivering
                    (λ l h. (ground arith, ground arith)) (λ l h. ground arith))))

  abbrev Finished : List Event → Type 0
  Finished l = (delivers_tested l ≡ true) × (ends_delivered l ≡ true)

  triple-report :
      {m : Talk st (Unit {0})}
      → Triple (log_of st) Safe m (λ a. Delivered) (λ e. Safe)
      → Triple (log_of st) Safe (report st m) (λ a. Finished) (λ e. Safe)
  unfolding report
  triple-report {m} t = record { run = λ s p. go (m s) (t.run s p) }
    where
      go :
          (out : Result AgentError (Unit {0}) × SessionOf st)
          → Post (log_of st) (λ a. Delivered) (λ e. Safe) out
          → Post {E = AgentError} {A = Unit {0}}
              (log_of st)
              (λ a. Finished)
              (λ e. Safe)
              (
                out.0,
                record {
                  world = st.send_result (verdict st out.0) out.1.world;
                  source = out.1.source;
                  log = sent_result (verdict st out.0) ∷ out.1.log;
                },
              )
      go (ok u, s) q = q
      go (err e, s) r = r

  triple-run_exchange :
      (tok : Token) (machine_name : Bytes)
      → Triple (log_of st) Safe (run_exchange st tok machine_name) (λ a. Finished) (λ e. Safe)
  unfolding run_exchange
  triple-run_exchange tok machine_name =
      triple-bind (λ a. Safe)
        (triple-lift (λ e. e) (match_recipient st.system tok st.peer_id) (λ a h v p. p)
          (λ e h v p. p))
        (λ rec.
          triple-bind (λ a. Safe)
            (triple-attempt st (st.send_hello (record { name = machine_name }))
              (sent_hello (record { name = machine_name })) sending_hello (λ l h. h) (λ l h. h))
            (λ greeted.
              triple-bind (λ a. Safe) (triple-start_challenge rec.c)
                (λ drawn.
                  triple-bind (λ a. Safe)
                    (triple-attempt st (st.send_request (record { kid = rec.kid; x = drawn.1 }))
                      (sent_request (record { kid = rec.kid; x = drawn.1 })) sending_request
                      (λ l h. h) (λ l h. h))
                    (λ asked.
                      triple-bind (λ a. Safe) triple-receive
                        (λ resp.
                          triple-bind (λ a. Safe)
                            (refusing (not (is_empty resp.error))
                              (declined (st.safe_label resp.error)))
                            (λ agreed. triple-report (triple-use_response rec drawn.0 resp)))))))
    where
      refusing :
          (b : Bool) (e : AgentError)
          → Triple {A = Unit {0}} (log_of st) Safe (raise_if b e) (λ a. Safe) (λ e. Safe)
      refusing true e = record { run = λ s p. p }
      refusing false e = record { run = λ s p. p }

  -- Whatever the key holder and the system answer: key material is delivered only right after a test
  -- found that it opens the volume, and an exchange that returns no error ended with that test, a
  -- delivery of the same key that succeeded, and the report of success.
  pub run_exchange-IsVerified :
      (tok : Token) (machine_name : Bytes) (s : SessionOf st)
      → (s.log ≡ [])
      → IsVerified (run_exchange st tok machine_name s).0 (run_exchange st tok machine_name s).1.log
  run_exchange-IsVerified tok machine_name s empty =
      go (run_exchange st tok machine_name s)
        ((triple-run_exchange tok machine_name).run s (rw (empty)))
    where
      go :
          (out : Result AgentError (Unit {0}) × SessionOf st)
          → Post (log_of st) (λ a. Finished) (λ e. Safe) out
          → IsVerified out.0 out.1.log
      go (ok u, s) q = q
      go (err e, s) r = r
