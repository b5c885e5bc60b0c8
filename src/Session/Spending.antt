-- ===== src/Session/Spending.antt =====
-- The time that one attempt of a pairing takes (mobile/pair.go).
use synctang.Action.Triple.{Triple, triple-bind, triple-lift, both-Post, post-both}
use synctang.Enrol.Entries.{is_empty}
use synctang.Io.{Writer}
use synctang.Pair.Messages.{PairRequest}
use synctang.Progress.{Progress, advance, begin_attempt, won, first_stage}
use synctang.Session.Pairer.{
  PairCodec, PairerOf, PairInput, Attempt, reporting, dial_pairing, read_challenge, send_request,
  read_result, check_result, proof_of, converse, closing, pair_once, stage_sending_proof,
  stage_waiting_for_operator, stage_enrolled,
}
use synctang.Session.Phone.{Phone}
use synctang.Session.Waits.{Clock}
use synctang.Wire.{write_parts, write_message, put_uint32}
use synctang.Prelude.{
  ℕ, ◌≤◌, inl, inr, Bool, true, false, Bytes, length, ◌%◌, ◌^◌, Option-cases, arith, if◌then◌else◌,
}

module _ (ph : Phone) (codec : PairCodec ph) (clock : Clock ph) (n : ℕ) where
  abbrev view : PairerOf ph codec → ph.World
  view p = p.world

  abbrev Within : ph.World → Type 0
  Within w = clock.left w ≤ n

  abbrev Keeps : {A : Type 0} → Attempt ph codec A → Type 0
  Keeps m = Triple view Within m (λ a. Within) (λ e. Within)

  reports : (f : Progress → Progress) → Keeps (reporting ph codec f)
  reports f = record { run = λ p w. w }

  dials : (input : PairInput ph.Cert) → Keeps (dial_pairing ph codec input)
  unfolding dial_pairing
  dials input = record {
    run = λ p w. both-Post view Within (dial_pairing ph codec input p) (
        omega
          (arith, clock.dial_adds input.cert input.machine_id input.direct_addr p.network p.world));
  }

  closes :
      (b : Bool) (c : ph.Conn) (w : ph.World) → Within w → Within (if b then ph.close c w else w)
  closes true c w h = omega (arith, clock.close_adds c w)
  closes false c w h = h

  reads_challenge : (c : ph.Conn) → Keeps (read_challenge ph codec c)
  unfolding read_challenge
  reads_challenge c = record {
    run = λ p w. both-Post view Within (read_challenge ph codec c p) (
        omega (
          arith,
          clock.read_adds c _ (if ph.ends_under c p.world then ph.close c p.world else p.world),
          closes (ph.ends_under c p.world) c p.world w,
        ));
  }

  reads_result : (c : ph.Conn) → Keeps (read_result ph codec c)
  unfolding read_result
  reads_result c = record {
    run = λ p w. both-Post view Within (read_result ph codec c p) (
        omega (
          arith,
          clock.read_adds c _
              (if codec.operator_expires c p.world then ph.close c p.world else p.world),
          closes (codec.operator_expires c p.world) c p.world w,
        ));
  }

  abbrev writer : ph.Conn → Writer
  writer c = record { State = ph.World; write = ph.write c }

  writes_parts :
      (c : ph.Conn) (len_buf body : Bytes) (w : ph.World)
      → Within w
      → Within (write_parts (writer c) len_buf body w).1
  unfolding write_parts
  writes_parts c len_buf body w h =
      ground (arith, clock.write_adds c len_buf w, clock.write_adds c body (ph.write c len_buf w).1)

  writes :
      (c : ph.Conn) (req : PairRequest) (w : ph.World)
      → Within w
      → Within (write_message codec.request_to (writer c) req w).1
  unfolding write_message
  writes c req w h = elim (Option-cases (codec.request_to req)) [
    | inl e ↦ ground arith
    | inr (body, e) ↦ ground (arith, writes_parts c (put_uint32 (length body % 2 ^ 32)) body w h)
  ]

  sends : (c : ph.Conn) (req : PairRequest) → Keeps (send_request ph codec c req)
  unfolding send_request
  sends c req = record {
    run = λ p w. both-Post view Within (send_request ph codec c req p) (writes c req p.world w);
  }

  converses : (input : PairInput ph.Cert) (c : ph.Conn) → Keeps (converse ph codec input c)
  unfolding converse
  converses input c =
      triple-bind (λ a. Within) (reads_challenge c)
        (λ challenge.
          triple-bind (λ a. Within) (reports (advance stage_sending_proof))
            (λ sending.
              triple-bind (λ a. Within) (sends c (proof_of ph codec input challenge))
                (λ sent.
                  triple-bind (λ a. Within) (reports (advance stage_waiting_for_operator))
                    (λ waiting.
                      triple-bind (λ a. Within) (reads_result c)
                        (λ result.
                          triple-bind (λ a. Within)
                            (triple-lift (λ e. e) (check_result ph codec result) (λ a e v w. w)
                              (λ a e v w. w))
                            (λ agreed. reports (advance stage_enrolled)))))))

  closes_after :
      (c : ph.Conn) (m : Attempt ph codec (Unit {0})) → Keeps m → Keeps (closing ph codec c m)
  closes_after c m keeps = record {
    run = λ p w. both-Post view Within (closing ph codec c m p) (
        omega
          (arith, clock.close_adds c (m p).1.world, post-both view Within (m p) (keeps.run p w)));
  }

  tries : (input : PairInput ph.Cert) → Keeps (pair_once ph codec input)
  unfolding pair_once
  tries input =
      triple-bind (λ a. Within) (reports (begin_attempt (first_stage input.direct_addr)))
        (λ begun.
          triple-bind (λ a. Within) (dials input)
            (λ c.
              triple-bind (λ a. Within)
                (reports (λ p. if is_empty input.direct_addr then p else won 0 p))
                (λ way. closes_after c (converse ph codec input c) (converses input c))))

module _ (ph : Phone) (codec : PairCodec ph) (clock : Clock ph) where
  pub attempt_adds :
      (input : PairInput ph.Cert) (p : PairerOf ph codec)
      → clock.left (pair_once ph codec input p).1.world ≤ clock.left p.world
  attempt_adds input p =
      post-both (λ (q : PairerOf ph codec). q.world) (λ w. clock.left w ≤ clock.left p.world)
        (pair_once ph codec input p)
        ((tries ph codec clock (clock.left p.world) input).run p (omega arith))
