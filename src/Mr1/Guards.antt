-- ===== src/Mr1/Guards.antt =====
-- The shape of what enrolment writes, and the refusals on the recovery side.
use synctang.Group.{Group, Nistec, p256, p256_point_to_x}
use synctang.Mr1.Crypto.{Recipient, Crypto, aead_open, wipe, nonce_len, secret_len}
use synctang.Mr1.Finish.{
  derive_key, finish_with_y, finish_full_point, finish_x_only, validate_challenge_point,
}
use synctang.Mr1.Start.{enrol}
use synctang.Prelude.{
  ℕ, ◌≡◌, ◌≢◌, refl, [], ◌∷◌, Bytes, length, ok, Result-cases, Option, some, inl, inr, arith,
}

module _ (g : Group) (cr : Crypto) where
  aead_open_bad_nonce : (key n ct q : Bytes) → length n ≢ nonce_len → aead_open cr key n ct ≢ ok q
  unfolding aead_open
  aead_open_bad_nonce key n ct q h e = h (ground arith)

  finish_with_y_bad_nonce :
      (rec : Recipient) (es y q : Bytes)
      → length rec.nonce ≢ nonce_len
      → finish_with_y g cr rec es y ≢ ok q
  unfolding finish_with_y
  finish_with_y_bad_nonce rec es y q h k = elim (Result-cases (g.negate es)) [
    | inr (z, a) ↦ ground arith
    | inl (neg, a) ↦ elim (Result-cases (g.add y neg)) [
      | inr (z, b) ↦ ground arith
      | inl (kp, b) ↦ elim (Result-cases (derive_key g cr kp rec.kid)) [
        | inr (z, c) ↦ ground arith
        | inl (key, c) ↦ aead_open_bad_nonce key rec.nonce rec.ciphertext q h (ground arith)
      ]
    ]
  ]

  -- A recipient entry whose nonce is not 12 bytes long makes both ways to finish a recovery fail,
  -- whatever the answer: neither returns a secret. The scalar is zeroed all the same.
  pub finish_bad_nonce :
      (e y x_only : Bytes) (rec : Recipient)
      → length rec.nonce ≢ nonce_len
      → ((q : Bytes) → (finish_full_point g cr e rec y).0 ≢ ok q)
        × ((q : Bytes) → (finish_x_only g cr e rec x_only).0 ≢ ok q)
        × ((finish_full_point g cr e rec y).1 ≡ wipe e)
        × ((finish_x_only g cr e rec x_only).1 ≡ wipe e)
  unfolding finish_full_point finish_x_only
  finish_bad_nonce e y x_only rec h = (
    λ q k. elim (Result-cases (g.scalar_mult rec.s e)) [
      | inr (z, a) ↦ ground arith
      | inl (es, a) ↦ finish_with_y_bad_nonce rec es y q h (ground arith)
    ],
    λ q k. elim (Result-cases (g.scalar_mult rec.s e)) [
      | inr (z, a) ↦ ground arith
      | inl (es, a) ↦ elim (Result-cases (g.lift_x x_only)) [
        | inr (z, b) ↦ ground arith
        | inl ((even, odd), b) ↦
            ground (
              arith,
              finish_with_y_bad_nonce rec es even q h,
              finish_with_y_bad_nonce rec es odd q h,
            )
      ]
    ],
    refl,
    refl,
  )

-- What a successful enrolment returns: a 32-byte secret, and an entry that carries the key holder's
-- point, its hash as the identifier, a 12-byte nonce and no transport data yet.
pub record EnrolShape (cr : Crypto) (s p : Bytes) (rec : Recipient) : Type 0 where
  pub secret_size : length p ≡ secret_len
  pub holder : rec.s ≡ s
  pub identifier : rec.kid ≡ cr.sha256 s
  pub nonce_size : length rec.nonce ≡ nonce_len
  pub no_transport : rec.transport ≡ []

module _ (g : Group) (cr : Crypto) (rand_read : ℕ → g.Source → Option Bytes × g.Source) where
  -- A successful enrolment returns a secret of 32 bytes, and an entry that carries the key holder's
  -- point, the SHA-256 of that point as its identifier, a nonce of 12 bytes and no transport data, if a
  -- successful read of the random source fills its slice.
  pub enrol_shape :
      (s p : Bytes) (rec : Recipient) (src src' : g.Source)
      → ((n : ℕ) (r : g.Source) (b : Bytes) → (rand_read n r).0 ≡ some b → length b ≡ n)
      → enrol g cr rand_read s src ≡ (ok (p, rec), src')
      → EnrolShape cr s p rec
  unfolding enrol
  enrol_shape s p rec src src' full h = record {
    secret_size = full 32 src p (ground arith);
    holder = ground arith;
    identifier = ground arith;
    nonce_size = full 12 (g.random_scalar (rand_read 32 src).1).1 rec.nonce (ground arith);
    no_transport = ground arith;
  }

module _ (nt : Nistec) where
  point_to_x_sound :
      (x xc : Bytes)
      → p256_point_to_x nt x ≡ ok xc
      → (p : nt.Point) × (nt.set_bytes x ≡ ok p) × (nt.bytes_x p ≡ ok xc)
  unfolding p256_point_to_x
  point_to_x_sound x xc h = elim (Result-cases (nt.set_bytes x)) [
    | inr (z, e) ↦ absurd (ground arith)
    | inl (p, e) ↦ elim (Result-cases (nt.bytes_x p)) [
      | inr (z, f) ↦ absurd (ground arith)
      | inl (xc', f) ↦ (p, e, ground arith)
    ]
  ]

  validate_point :
      (x : Bytes)
      → validate_challenge_point (p256 nt) x ≡ ok tt
      → (xc : Bytes) × (p256_point_to_x nt x ≡ ok xc) × (x ≢ 0 ∷ [])
  unfolding validate_challenge_point
  validate_point [] h = absurd (cc)
  validate_point (b ∷ []) h = elim (Result-cases (p256_point_to_x nt (b ∷ []))) [
    | inr (z, e) ↦ absurd (ground arith)
    | inl (xc, e) ↦ (xc, e, λ zero_point. ground arith)
  ]
  validate_point (b ∷ b' ∷ bs) h = elim (Result-cases (p256_point_to_x nt (b ∷ b' ∷ bs))) [
    | inr (z, e) ↦ absurd (ground arith)
    | inl (xc, e) ↦ (xc, e, λ zero_point. cc)
  ]

  -- A challenge that the key holder accepts decodes to a point of the curve that has an
  -- x-coordinate, and is not the encoding of the point at infinity.
  pub validate_challenge_point_sound :
      (x : Bytes)
      → validate_challenge_point (p256 nt) x ≡ ok tt
      → (p : nt.Point) × (xc : Bytes) × (nt.set_bytes x ≡ ok p)
        × (nt.bytes_x p ≡ ok xc)
        × (x ≢ 0 ∷ [])
  validate_challenge_point_sound x h =
      let (xc, e, finite) = validate_point x h in
      let (p, spelled, coordinate) = point_to_x_sound x xc e in (p, xc, spelled, coordinate, finite)
