-- ===== src/Session/Recovers.antt =====
-- The phone's answer and the machine's recovery, together.
use synctang.Enrol.Entries.{is_empty}
use synctang.Group.{Group, is_uncompressed}
use synctang.Group.Laws.{GroupLaws}
use synctang.Mr1.Crypto.{Recipient, wipe}
use synctang.Mr1.Facts.{CryptoLaws}
use synctang.Mr1.Finish.{finish_x_only, validate_challenge_point}
use synctang.Mr1.Recovery.{finish_x_only-enrol}
use synctang.Mr1.Start.{enrol, challenge_start}
use synctang.Scalar.{validate_private_scalar}
use synctang.Session.Answer.{own_answer}
use synctang.Session.Key.{public_point_of, check_key_pair, x_of_product, x_only_answer, coord_len}
use synctang.Session.Phone.{Phone, SessionOf}
use synctang.Prelude.{
  ℕ, ◌≡◌, refl, true, false, [], ◌∷◌, Bytes, bytes_eq_refl, take, drop, Option, ok, arith,
}

-- SEC 1: the encoding of a product that has an x-coordinate holds it after its first byte.
pub record EncodesX (g : Group) : Type 0 where
  pub product_form :
      (point scalar y x : Bytes)
      → g.scalar_mult point scalar ≡ ok y
      → g.point_to_x y ≡ ok x
      → (is_uncompressed y ≡ true) × (take coord_len (drop 1 y) ≡ x)

challenge_not_empty :
    (g : Group) (x : Bytes) → validate_challenge_point g x ≡ ok tt → is_empty x ≡ false
unfolding validate_challenge_point
challenge_not_empty g [] h = absurd (ground arith)
challenge_not_empty g (b ∷ bs) h = refl

module _ (ph : Phone) (rand_read : ℕ → ph.group.Source → Option Bytes × ph.group.Source)
    (gl : GroupLaws ph.group) (cl : CryptoLaws ph.group ph.crypto rand_read)
    (form : EncodesX ph.group) where
  own_answer-computed :
      (holder s y x_only : Bytes) (session : SessionOf ph)
      → ph.group.scalar_base_mult holder ≡ ok s
      → validate_private_scalar ph.order holder ≡ ok tt
      → validate_challenge_point ph.group session.x ≡ ok tt
      → ph.group.scalar_mult session.x holder ≡ ok y
      → ph.group.point_to_x y ≡ ok x_only
      → own_answer ph holder s session ≡ ok x_only
  unfolding own_answer check_key_pair public_point_of x_only_answer x_of_product
  own_answer-computed holder s y x_only session hs valid on_curve hy hx =
      let (shape, same) = form.product_form session.x holder y x_only hy hx in
      ground (arith, bytes_eq_refl s, challenge_not_empty ph.group session.x on_curve)

  -- A machine enrols a secret for the public point of the phone's scalar, and later sends a challenge
  -- that arrives in the session. Then the phone computes an answer, and the machine recovers with it
  -- the very secret that it enrolled, and wipes the scalar of its challenge.
  pub own_answer_recovers :
      (holder s p e y x_only : Bytes) (rec : Recipient) (session : SessionOf ph)
      (src src' src2 src3 : ph.group.Source)
      → gl.IsScalar holder
      → ph.group.scalar_base_mult holder ≡ ok s
      → validate_private_scalar ph.order holder ≡ ok tt
      → enrol ph.group ph.crypto rand_read s src ≡ (ok (p, rec), src')
      → challenge_start ph.group ph.crypto rand_read rec.c src2 ≡ (ok (e, session.x), src3)
      → validate_challenge_point ph.group session.x ≡ ok tt
      → ph.group.scalar_mult session.x holder ≡ ok y
      → ph.group.point_to_x y ≡ ok x_only
      → (own_answer ph holder s session ≡ ok x_only)
        × (finish_x_only ph.group ph.crypto e rec x_only ≡ (ok p, wipe e))
  own_answer_recovers holder s p e y x_only rec session src src' src2 src3 hh hs valid he hc
        on_curve hy hx =
      (
        own_answer-computed holder s y x_only session hs valid on_curve hy hx,
        finish_x_only-enrol ph.group ph.crypto rand_read gl cl holder s p e session.x y x_only rec
            src src' src2 src3 hh hs he hc hy hx,
      )
