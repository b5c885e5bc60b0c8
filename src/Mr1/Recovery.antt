-- ===== src/Mr1/Recovery.antt =====
-- Enrolment followed by a recovery with the same key holder (mrcore/mr1.go).
use synctang.Group.{Group}
use synctang.Group.Laws.{GroupLaws}
use synctang.Mr1.Crypto.{Recipient, Crypto, wipe}
use synctang.Mr1.Facts.{
  CryptoLaws, Enrolled, enrol-Enrolled, challenge_start-Started, unblind, aead_open-seal,
  aead_open-sealed,
}
use synctang.Mr1.Finish.{derive_key, finish_with_y, finish_full_point, try_both, finish_x_only}
use synctang.Mr1.Start.{enrol, challenge_start}
use synctang.Prelude.{
  ℕ, ◌≡◌, refl, ap, ◌⊎◌, inl, inr, Bytes, value, ok, Result-cases, Option, arith,
}

module _ (g : Group) (cr : Crypto) (rand_read : ℕ → g.Source → Option Bytes × g.Source)
    (gl : GroupLaws g) (cl : CryptoLaws g cr rand_read) where
  finish_with_y-shared :
      (s p shared_e y : Bytes) (rec : Recipient) (k e : ℕ)
      → (en : Enrolled g cr rand_read gl cl s p rec)
      → shared_e ≡ gl.encode (gl.act e (gl.act k gl.base))
      → en.shared ≡ gl.encode (gl.act (value en.c) (gl.act k gl.base))
      → y ≡ gl.encode (gl.act k (gl.plus (gl.act (value en.c) gl.base) (gl.act e gl.base)))
      → finish_with_y g cr rec shared_e y ≡ ok p
  unfolding finish_with_y
  finish_with_y-shared s p shared_e y rec k e en he hs hy =
      let own = gl.act k gl.base in
      rw (he, hy)
        (ground (
          arith,
          gl.negate-encode (gl.act e own),
          gl.add-encode (gl.act k (gl.plus (gl.act (value en.c) gl.base) (gl.act e gl.base)))
              (gl.minus (gl.act e own)),
          unblind g cr rand_read gl cl k (value en.c) e,
          aead_open-seal g cr rand_read gl cl en.key rec.nonce p rec.ciphertext en.nonce_size
              en.sealed,
          en.derived,
        ))

  -- The three points of an honest run: the shared point of the enrolment, the machine's `e.S`, and
  -- the key holder's answer.
  record Run (rec : Recipient) (holder p e y : Bytes) : Type 0 where
    own : Bytes
    enrolled : Enrolled g cr rand_read gl cl own p rec
    es : Bytes
    es_eq : g.scalar_mult rec.s e ≡ ok es
    es_point : es ≡ gl.encode (gl.act (value e) (gl.act (value holder) gl.base))
    shared_point :
        enrolled.shared ≡ gl.encode (gl.act (value enrolled.c) (gl.act (value holder) gl.base))
    answer :
        y
        ≡ gl.encode (
            gl.act
              (value holder)
              (gl.plus (gl.act (value enrolled.c) gl.base) (gl.act (value e) gl.base)))

  honest-Run :
      (holder s p e x y : Bytes) (rec : Recipient) (src src' src2 src3 : g.Source)
      → gl.IsScalar holder
      → g.scalar_base_mult holder ≡ ok s
      → enrol g cr rand_read s src ≡ (ok (p, rec), src')
      → challenge_start g cr rand_read rec.c src2 ≡ (ok (e, x), src3)
      → g.scalar_mult x holder ≡ ok y
      → Run rec holder p e y
  honest-Run holder s p e x y rec src src' src2 src3 hh hs he hc hy =
      let en = enrol-Enrolled g cr rand_read gl cl s p rec src src' he in
      let st = challenge_start-Started g cr rand_read gl cl rec.c e x src2 src3 hc in
      let own : s ≡ gl.encode (gl.act (value holder) gl.base) =
        ground (arith, gl.scalar_base_mult-encode holder hh) in
      let big_c : rec.c ≡ gl.encode (gl.act (value en.c) gl.base) =
        ground (arith, gl.scalar_base_mult-encode en.c en.c-IsScalar, en.base_c) in
      let big_e : st.big_e ≡ gl.encode (gl.act (value e) gl.base) =
        ground (arith, gl.scalar_base_mult-encode e st.e-IsScalar, st.base_e) in
      let sum : x ≡ gl.encode (gl.plus (gl.act (value en.c) gl.base) (gl.act (value e) gl.base)) =
        ground
          (arith, gl.add-encode (gl.act (value en.c) gl.base) (gl.act (value e) gl.base), st.sum) in
      record {
        own = s;
        enrolled = en;
        es = gl.encode (gl.act (value e) (gl.act (value holder) gl.base));
        es_eq =
            rw (en.holder, own)
              (gl.scalar_mult-encode (gl.act (value holder) gl.base) e st.e-IsScalar);
        es_point = refl;
        shared_point = ground (
          arith,
          gl.scalar_mult-encode (gl.act (value holder) gl.base) en.c en.c-IsScalar,
          en.mult_c,
        );
        answer = ground (
          arith,
          gl.scalar_mult-encode (gl.plus (gl.act (value en.c) gl.base) (gl.act (value e) gl.base))
              holder hh,
        );
      }

  -- A secret enrolled for a key holder's public point is recovered, byte for byte, by any later
  -- challenge that the same key holder answers with the full point; the ephemeral scalar is zeroed.
  pub finish_full_point-enrol :
      (holder s p e x y : Bytes) (rec : Recipient) (src src' src2 src3 : g.Source)
      → gl.IsScalar holder
      → g.scalar_base_mult holder ≡ ok s
      → enrol g cr rand_read s src ≡ (ok (p, rec), src')
      → challenge_start g cr rand_read rec.c src2 ≡ (ok (e, x), src3)
      → g.scalar_mult x holder ≡ ok y
      → finish_full_point g cr e rec y ≡ (ok p, wipe e)
  unfolding finish_full_point
  finish_full_point-enrol holder s p e x y rec src src' src2 src3 hh hs he hc hy =
      let r = honest-Run holder s p e x y rec src src' src2 src3 hh hs he hc hy in
      ground (
        arith,
        r.es_eq,
        finish_with_y-shared r.own p r.es y rec (value holder) (value e) r.enrolled r.es_point
            r.shared_point r.answer,
      )

  -- Whatever `finish_with_y` returns for an enrolled entry is the enrolled secret.
  finish_with_y-only :
      (s p es y q : Bytes) (rec : Recipient)
      → Enrolled g cr rand_read gl cl s p rec
      → finish_with_y g cr rec es y ≡ ok q
      → q ≡ p
  unfolding finish_with_y
  finish_with_y-only s p es y q rec en h = elim (Result-cases (g.negate es)) [
    | inr (z, a) ↦ absurd (ground arith)
    | inl (neg, a) ↦ elim (Result-cases (g.add y neg)) [
      | inr (z, b) ↦ absurd (ground arith)
      | inl (kp, b) ↦ elim (Result-cases (derive_key g cr kp rec.kid)) [
        | inr (z, c) ↦ absurd (ground arith)
        | inl (k, c) ↦
            aead_open-sealed g cr rand_read gl cl en.key k rec.nonce p q rec.ciphertext en.sealed
              (ground arith)
      ]
    ]
  ]

  try_both-recovers :
      (s p es even odd y : Bytes) (rec : Recipient)
      → Enrolled g cr rand_read gl cl s p rec
      → finish_with_y g cr rec es y ≡ ok p
      → (even ≡ y) ⊎ (odd ≡ y)
      → try_both g cr rec es (even, odd) ≡ ok p
  unfolding try_both
  try_both-recovers s p es even odd y rec en h side =
      elim (Result-cases (finish_with_y g cr rec es even)) [
        | inl (q, a) ↦ rw (a, try_both) (ap ok (finish_with_y-only s p es even q rec en a))
        | inr (z, a) ↦ elim side [ inl b ↦ absurd (cc) | inr b ↦ rw (a, try_both) (rw b h) ]
      ]

  -- The same when the key holder can only give the x-coordinate of its answer: one of the two points
  -- with that coordinate authenticates, and the other cannot yield a different secret.
  pub finish_x_only-enrol :
      (holder s p e x y x_only : Bytes) (rec : Recipient) (src src' src2 src3 : g.Source)
      → gl.IsScalar holder
      → g.scalar_base_mult holder ≡ ok s
      → enrol g cr rand_read s src ≡ (ok (p, rec), src')
      → challenge_start g cr rand_read rec.c src2 ≡ (ok (e, x), src3)
      → g.scalar_mult x holder ≡ ok y
      → g.point_to_x y ≡ ok x_only
      → finish_x_only g cr e rec x_only ≡ (ok p, wipe e)
  unfolding finish_x_only
  finish_x_only-enrol holder s p e x y x_only rec src src' src2 src3 hh hs he hc hy hx =
      let r = honest-Run holder s p e x y rec src src' src2 src3 hh hs he hc hy in
      let (even, odd, lifted, side) = gl.lift_x-encode _ x_only (rw r.answer at hx) in
      let done =
        finish_with_y-shared r.own p r.es y rec (value holder) (value e) r.enrolled r.es_point
          r.shared_point r.answer in
      ground (
        arith,
        r.es_eq,
        lifted,
        try_both-recovers r.own p r.es even odd y rec r.enrolled done (rw r.answer side),
      )
