-- ===== src/Session/Tests.antt =====
-- A phone whose connections deliver a recorded stream, and the theorems at its runs. The world is the
-- stream that is still to come and the number of waits that the context allows.
use synctang.Group.{p256_scalar_mult, p256_point_to_x, is_uncompressed}
use synctang.Group.P256.{p256-GroupLaws, p256-IsScalar}
use synctang.Io.{read_full}
use synctang.Label.{Unicode, safe_label, fit_rune}
use synctang.Mr1.Crypto.{wipe}
use synctang.Mr1.Finish.{finish_x_only, validate_challenge_point}
use synctang.Mr1.Tests.{
  g, store_laws, scalar_of, enrol_source, xs, point_one, point_two, entry, enrol_run, challenge_run,
  answer_run, holder_run, coordinate_run,
}
use synctang.Mr1.Toy.{
  Point, zero_point, one_point, two_point, three, three-NistecLaws, store, rand_bytes,
}
use synctang.Scalar.{validate_private_scalar, scalar_in_range, borrow_loop, borrow_step}
use synctang.Session.Answer.{answer_with_scalar, own_answer, new_session}
use synctang.Session.Connect.{
  connect, connect_loop, prepare, arm, arm_cancel, cert_for_seed, connect_once, dial_machine,
  watch_context, read_recover_request, check_request, after_failure, is_cancelled,
}
use synctang.Network.Tests.{plain_urls}
use synctang.Progress.{begin_attempt, set_locked, advance, won, route_of_leg, first_stage}
use synctang.Progress.Stages.{apply_all}
use synctang.Session.Failure.{Error, kind_of, kind_of_error}
use synctang.Session.Guarded.{answer_with_scalar_guarded, Sends, IsRefused}
use synctang.Session.Key.{coord_len}
use synctang.Session.Waits.{Clock}
use synctang.Session.Patience.{connect-Returns, Returns}
use synctang.Session.Phone.{Phone, HostOf, SessionOf, receive, or_close, recorded, close_locked}
use synctang.Session.Ready.{connect-Left, Left}
use synctang.Session.Recovers.{EncodesX, own_answer_recovers}
use synctang.Wire.{read_message, read_body}
use synctang.Prelude.{
  ℕ, ◌-◌, ◌≡◌, refl, sym, subst, ◌⊎◌, true, false, ◌==◌, [], ◌∷◌, ◌++◌, Bytes, codes, replicate,
  take, drop, Option, none, some, Result, Result-cases, inl, inr, ok, err, arith,
}

abbrev ascii : Unicode
ascii = record {
  decode_rune = λ s. (0, 1);
  append_rune = λ r. r ∷ [];
  is_control = λ r. false;
  is_format = λ r. false;
}

abbrev pub recorded_phone : Phone
recorded_phone = record {
  World = Bytes × ℕ;
  Cert = Unit {0};
  Conn = Unit {0};
  group = g;
  crypto = store;
  order = replicate 31 0 ++ (3 ∷ []);
  unicode = ascii;
  urls = plain_urls;
  generate_cert = λ seed. some tt;
  trim_space = λ s. s;
  dial = λ cert machine direct n w. (some tt, [], w);
  peer_id = λ c. codes "machine";
  pull = λ c w. w.0;
  consumed = λ c rest w. (rest, w.1);
  write = λ c b w. (some tt, w);
  close = λ c w. ([], w.1);
  ends_under = λ c w. false;
  reply_expires = λ c w. false;
  interrupted = λ w. (false, w);
  deadline = λ w. (w.1 == 0, (w.0, w.1 - 1));
  hello_of = λ b. some (record { name = b });
  request_of = λ b. some (record { kid = []; x = b });
  result_of = λ b. some (record { succeeded = true; error = [] });
  response_to = λ r. some r.x_only;
}

unfoldable pub stream_clock : Clock recorded_phone
stream_clock = record {
  left = λ w. w.1;
  wait_uses = λ w h. ground arith;
  look_adds = λ w. omega arith;
  dial_adds = λ cert machine direct n w. omega arith;
  read_adds = λ c rest w. omega arith;
  write_adds = λ c b w. omega arith;
  close_adds = λ c w. omega arith;
}

-- A machine that says its name, asks, and reports success.
abbrev stream : Bytes
stream =
    (0 ∷ 0 ∷ 0 ∷ 1 ∷ b'm' ∷ [])
    ++ ((0 ∷ 0 ∷ 0 ∷ 65 ∷ []) ++ (point_one ++ (0 ∷ 0 ∷ 0 ∷ 1 ∷ 1 ∷ [])))

abbrev fresh : SessionOf recorded_phone
fresh = new_session recorded_phone (codes "machine") (codes "seed")

abbrev phone_host : HostOf recorded_phone
phone_host = record { session = fresh; world = (stream, 3) }

unconnected : phone_host.session.conn ≡ none
unfolding new_session
unconnected = refl

connect-Left_example : Left recorded_phone (connect recorded_phone 4 phone_host)
connect-Left_example = connect-Left recorded_phone 4 phone_host unconnected

connect-Returns_example : Returns recorded_phone stream_clock (connect recorded_phone 4 phone_host)
unfolding stream_clock
connect-Returns_example = connect-Returns recorded_phone stream_clock 4 phone_host (omega arith)

-- The run itself: the request is kept.
abbrev request_of_run : Option (Result Error (Unit {0}) × HostOf recorded_phone) → Bytes
request_of_run none = []
request_of_run (some (ok u, h)) = h.session.x
request_of_run (some (err e, h)) = []

connect_run : request_of_run (connect recorded_phone 4 phone_host) ≡ point_one
unfolding connect connect_loop prepare arm arm_cancel cert_for_seed connect_once dial_machine
    watch_context read_recover_request check_request after_failure is_cancelled receive or_close
    recorded close_locked kind_of read_message read_body read_full validate_challenge_point
    p256_point_to_x new_session begin_attempt set_locked advance won route_of_leg first_stage
    apply_all safe_label fit_rune kind_of_error
connect_run = refl

-- The session once the request has arrived.
abbrev asked : SessionOf recorded_phone
asked = record fresh { conn = some tt; x = point_one }

abbrev asked_host : HostOf recorded_phone
asked_host = record { session = asked; world = (0 ∷ 0 ∷ 0 ∷ 1 ∷ 1 ∷ [], 3) }

answer_with_scalar_guarded_example :
    ((answer_with_scalar recorded_phone (scalar_of 2) point_two asked_host).1 ≡ wipe (scalar_of 2))
    × (Sends recorded_phone
          (scalar_of 2)
          point_two
          asked_host
          (answer_with_scalar recorded_phone (scalar_of 2) point_two asked_host).0
        ⊎ IsRefused recorded_phone asked_host
            (answer_with_scalar recorded_phone (scalar_of 2) point_two asked_host).0)
answer_with_scalar_guarded_example =
    answer_with_scalar_guarded recorded_phone (scalar_of 2) point_two asked_host

encoded_x :
    (q : Point) (x : Bytes)
    → p256_point_to_x three (three.bytes q) ≡ ok x
    → (is_uncompressed (three.bytes q) ≡ true) × (take coord_len (drop 1 (three.bytes q)) ≡ x)
unfolding p256_point_to_x
encoded_x zero_point x h = absurd (ground arith)
encoded_x one_point x h = (refl, ground arith)
encoded_x two_point x h = (refl, ground arith)

three_product :
    (point scalar y x : Bytes)
    → p256_scalar_mult three point scalar ≡ ok y
    → p256_point_to_x three y ≡ ok x
    → (is_uncompressed y ≡ true) × (take coord_len (drop 1 y) ≡ x)
unfolding p256_scalar_mult
three_product point scalar y x h hx = elim (Result-cases (three.set_bytes point)) [
  | inr (z, e) ↦ absurd (ground arith)
  | inl (q, e) ↦ elim (Result-cases (three.scalar_mult q scalar)) [
    | inr (z, f) ↦ absurd (ground arith)
    | inl (r, f) ↦
        let same : three.bytes r ≡ y = ground arith in
        subst (λ (b : Bytes). (is_uncompressed b ≡ true) × (take coord_len (drop 1 b) ≡ x)) same
          (encoded_x r x (subst (λ (b : Bytes). p256_point_to_x three b ≡ ok x) (sym same) hx))
  ]
]

three-EncodesX : EncodesX recorded_phone.group
three-EncodesX = record { product_form = three_product }

scalar_valid : validate_private_scalar (replicate 31 0 ++ (3 ∷ [])) (scalar_of 2) ≡ ok tt
unfolding validate_private_scalar scalar_in_range borrow_loop borrow_step
scalar_valid = refl

point_valid : validate_challenge_point g point_one ≡ ok tt
unfolding validate_challenge_point p256_point_to_x
point_valid = refl

own_answer_recovers_example :
    (own_answer recorded_phone (scalar_of 2) point_two asked ≡ ok xs)
    × (finish_x_only g store (scalar_of 2) entry xs ≡ (ok (replicate 32 9), wipe (scalar_of 2)))
own_answer_recovers_example =
    own_answer_recovers recorded_phone rand_bytes (p256-GroupLaws three three-NistecLaws) store_laws
      three-EncodesX (scalar_of 2) point_two (replicate 32 9) (scalar_of 2) point_two xs entry asked
      enrol_source [] (scalar_of 2) []
      (p256-IsScalar three three-NistecLaws (scalar_of 2) (refl, omega arith, omega arith))
      holder_run scalar_valid enrol_run challenge_run point_valid answer_run coordinate_run
