-- ===== src/Scalar/Tests.antt =====
-- The range check and the sampling at concrete bytes, with the order 259 in two bytes or in 32.
use synctang.Scalar.{
  borrow_step, borrow_loop, scalar_in_range, validate_private_scalar, random_scalar_from,
  ScalarError,
}
use synctang.Scalar.Range.{validate_private_scalar_iff}
use synctang.Scalar.Sampling.{Draws, random_scalar_from-Draws}
use synctang.Prelude.{
  ◌<◌, ◌≡◌, ◌↔◌, refl, true, [], ◌∷◌, ◌++◌, Bytes, length, replicate, value, Result, ok, some,
  arith,
}

in_range_run : scalar_in_range (1 ∷ 2 ∷ []) (1 ∷ 3 ∷ []) ≡ true
unfolding scalar_in_range borrow_loop borrow_step
in_range_run = refl

abbrev small_scalar : Bytes
small_scalar = 0 ∷ 255 ∷ []

abbrev small_order : Bytes
small_order = 1 ∷ 3 ∷ []

abbrev order : Bytes
order = replicate 30 0 ++ (1 ∷ 3 ∷ [])

abbrev scalar : Bytes
scalar = replicate 31 0 ++ (7 ∷ [])

validate_private_scalar_iff_example :
    (validate_private_scalar order scalar ≡ ok tt)
    ↔ ((length scalar ≡ 32) × (0 < value scalar) × (value scalar < value order))
validate_private_scalar_iff_example =
    validate_private_scalar_iff order scalar (omega arith) (omega arith) refl

-- One block too large, then a scalar, then two bytes more.
abbrev source : Bytes
source = replicate 32 255 ++ (scalar ++ (8 ∷ 9 ∷ []))

sampling_run : random_scalar_from 3 259 source ≡ some (ok scalar, 8 ∷ 9 ∷ [])
unfolding random_scalar_from
sampling_run = refl

random_scalar_from-Draws_example :
    (out : Result ScalarError Bytes) × (rest : Bytes) × (random_scalar_from 3 259 source
      ≡ some (out, rest))
    × Draws 259 source out rest
random_scalar_from-Draws_example = random_scalar_from-Draws 3 259 source (omega arith)
