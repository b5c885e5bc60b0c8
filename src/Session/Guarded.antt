-- ===== src/Session/Guarded.antt =====
-- When an answer is sent, and what is not touched when it is not.
use synctang.Action.{◌>>=◌, lift}
use synctang.Enrol.Entries.{is_empty}
use synctang.Mr1.Crypto.{wipe}
use synctang.Mr1.Finish.{validate_challenge_point}
use synctang.Session.Answer.{may_answer, send_answer, answer_x_only, own_answer, answer_with_scalar}
use synctang.Session.Failure.{Error}
use synctang.Session.Key.{public_point_of, check_key_pair, x_only_answer}
use synctang.Session.Phone.{Phone, HostOf, SessionOf, recorded}
use synctang.Prelude.{
  ◌≡◌, refl, ◌⊎◌, inl, inr, false, Bytes, bytes_eq→eq, Option-cases, some, Result, Result-cases, ok,
  err, arith,
}

module _ (ph : Phone) where
  -- All that stands between a scalar and an answer: the session is connected, its challenge point is on
  -- the curve and not yet answered, and the scalar is the one of the enrolled public point.
  pub record IsAllowed (scalar expected_public : Bytes) (s : SessionOf ph) : Type 0 where
    pub conn : ph.Conn
    pub connected : s.conn ≡ some conn
    pub asked : is_empty s.x ≡ false
    pub on_curve : validate_challenge_point ph.group s.x ≡ ok tt
    pub unanswered : s.answered ≡ false
    pub own_key : public_point_of ph.group ph.order scalar ≡ ok expected_public
    pub x_only : Bytes
    pub computed : x_only_answer ph.group ph.order s.x scalar ≡ ok x_only

  -- A call that fails and leaves the connection, the world and the session but for the last failure.
  abbrev pub IsRefused : HostOf ph → Result Error (Unit {0}) × HostOf ph → Type 0
  IsRefused h out =
      ((e : Error) × (out.0 ≡ err e))
      × (out.1.world ≡ h.world)
      × (out.1.session ≡ record h.session { failure = out.1.session.failure })

  may_answer_sound :
      (x_only : Bytes) (s : SessionOf ph) (c : ph.Conn)
      → may_answer ph x_only s ≡ ok c
      → (s.conn ≡ some c)
        × (is_empty s.x ≡ false)
        × (validate_challenge_point ph.group s.x ≡ ok tt)
        × (s.answered ≡ false)
  unfolding may_answer
  may_answer_sound x_only s c e = elim (Option-cases s.conn) [
    | inl n ↦ absurd (ground arith)
    | inr (d, n) ↦ elim (Result-cases (validate_challenge_point ph.group s.x)) [
      | inl (tt, v) ↦ ground arith
      | inr (z, v) ↦ absurd (ground arith)
    ]
  ]

  own_answer_sound :
      (scalar expected_public x_only : Bytes) (s : SessionOf ph)
      → own_answer ph scalar expected_public s ≡ ok x_only
      → (public_point_of ph.group ph.order scalar ≡ ok expected_public)
        × (x_only_answer ph.group ph.order s.x scalar ≡ ok x_only)
  unfolding own_answer check_key_pair
  own_answer_sound scalar expected_public x_only s e =
      elim (Result-cases (public_point_of ph.group ph.order scalar)) [
        | inr (z, p) ↦ absurd (ground arith)
        | inl (q, p) ↦ ground (arith, bytes_eq→eq q expected_public)
      ]

  -- What comes of a call that sends, if it may.
  pub record Sends (scalar expected_public : Bytes) (h : HostOf ph)
      (out : Result Error (Unit {0}) × HostOf ph) : Type 0 where
    pub allowed : IsAllowed scalar expected_public h.session
    pub done : out ≡ recorded ph (recorded ph (send_answer ph allowed.x_only allowed.conn)) h

  module _ (scalar expected_public : Bytes) (h : HostOf ph) where
    passed :
        (x_only : Bytes) (checked : Result Error ph.Conn)
        → own_answer ph scalar expected_public h.session ≡ ok x_only
        → may_answer ph x_only h.session ≡ checked
        → Sends scalar expected_public h
            (recorded ph (recorded ph (lift (λ e. e) checked >>= send_answer ph x_only)) h)
          ⊎ IsRefused h
              (recorded ph (recorded ph (lift (λ e. e) checked >>= send_answer ph x_only)) h)
    unfolding recorded
    passed x_only (err z) own may = inr ((z, refl), refl, refl)
    passed x_only (ok c) own may =
        let (key, computed) = own_answer_sound scalar expected_public x_only h.session own in
        let (connected, asked, on_curve, unanswered) = may_answer_sound x_only h.session c may in
        inl (record {
          allowed = record {
            conn = c;
            connected = connected;
            asked = asked;
            on_curve = on_curve;
            unanswered = unanswered;
            own_key = key;
            x_only = x_only;
            computed = computed;
          };
          done = refl;
        })

    given :
        (r : Result Error Bytes)
        → own_answer ph scalar expected_public h.session ≡ r
        → Sends scalar expected_public h (recorded ph (lift (λ e. e) r >>= answer_x_only ph) h)
          ⊎ IsRefused h (recorded ph (lift (λ e. e) r >>= answer_x_only ph) h)
    unfolding recorded answer_x_only
    given (err z) own = inr ((z, refl), refl, refl)
    given (ok x_only) own = passed x_only (may_answer ph x_only h.session) own refl

    -- Either the scalar is the private half of the expected public point, the session is connected and
    -- holds an unanswered challenge on the curve, and what is done is to send the x-coordinate computed
    -- from the two; or the call fails with the world untouched, and the session too but for its last
    -- failure. In both cases the scalar is wiped.
    pub answer_with_scalar_guarded :
        ((answer_with_scalar ph scalar expected_public h).1 ≡ wipe scalar)
        × (Sends scalar expected_public h (answer_with_scalar ph scalar expected_public h).0
            ⊎ IsRefused h (answer_with_scalar ph scalar expected_public h).0)
    unfolding answer_with_scalar recorded
    answer_with_scalar_guarded = (refl, given (own_answer ph scalar expected_public h.session) refl)
