-- ===== src/Mr1/Finish.antt =====
-- Key derivation, `finishWithY`, `FinishFullPoint` and `FinishXOnly`. The second component of a
-- finish is the scalar `e` as the deferred `Wipe` leaves it.
use synctang.Group.{Group}
use synctang.Mr1.Crypto.{
  Recipient, Mr1Error, group_failed, deriving_key, challenge_empty, challenge_infinity,
  challenge_invalid, Crypto, aead_open, wipe,
}
use synctang.Prelude.{◌==◌, [], ◌∷◌, Bytes, Result, ok, err, ◌>>=◌, map_err, or_err, if◌then◌else◌}

module _ (g : Group) (cr : Crypto) where
  unfoldable pub derive_key : Bytes → Bytes → Result Mr1Error Bytes
  derive_key k kid = do
    x ← map_err group_failed (g.point_to_x k)
    or_err deriving_key (cr.hkdf_key x kid)

  unfoldable pub finish_with_y : Recipient → Bytes → Bytes → Result Mr1Error Bytes
  finish_with_y rec es y = do
    neg ← map_err group_failed (g.negate es)
    kp ← map_err group_failed (g.add y neg)
    k ← derive_key kp rec.kid
    aead_open cr k rec.nonce rec.ciphertext

  unfoldable pub finish_full_point : Bytes → Recipient → Bytes → Result Mr1Error Bytes × Bytes
  unfolding wipe
  finish_full_point e rec y =
      (do es ← map_err group_failed (g.scalar_mult rec.s e); finish_with_y rec es y, wipe e)

  -- The first candidate that authenticates, else what the second gives.
  unfoldable pub try_both : Recipient → Bytes → Bytes × Bytes → Result Mr1Error Bytes
  try_both rec es (even, odd) = elim (finish_with_y rec es even) [
    | ok p ↦ ok p
    | err _ ↦ finish_with_y rec es odd
  ]

  unfoldable pub finish_x_only : Bytes → Recipient → Bytes → Result Mr1Error Bytes × Bytes
  unfolding wipe try_both
  finish_x_only e rec x_only = (
    do
      es ← map_err group_failed (g.scalar_mult rec.s e)
      lifted ← map_err group_failed (g.lift_x x_only)
      try_both rec es lifted,
    wipe e,
  )

module _ (g : Group) where
  unfoldable pub validate_challenge_point : Bytes → Result Mr1Error (Unit {0})
  validate_challenge_point [] = err challenge_empty
  validate_challenge_point (b ∷ []) =
      if b == 0
      then err challenge_infinity
      else map_err challenge_invalid (g.point_to_x (b ∷ [])) >>= λ _. ok tt
  validate_challenge_point (b ∷ b' ∷ bs) =
      map_err challenge_invalid (g.point_to_x (b ∷ b' ∷ bs)) >>= λ _. ok tt
