-- ===== src/Scalar.antt =====
-- Private scalars of mrcore/group.go: the constant-time range check and the rejection sampling.
-- Bytes are numbers below 256; the group order comes from the curve's parameters and is an argument.
pub mod Range
pub mod Sampling
mod Tests
use Prim.Native.Nat.{bit_or}
use synctang.Io.{read_full}
use synctang.Prelude.{
  ℕ, zero, suc, ◌+◌, ◌-◌, ◌*◌, ◌/◌, ◌%◌, ◌^◌, Bool, false, ◌&&◌, not, [], ◌∷◌, Bytes, length, take,
  drop, value, ltb, ◌==◌, if◌then◌else◌, Result, ok, err, Option, none, some,
}

-- The two variables of the loop in `scalarInRange`.
pub record Borrow : Type 0 where
  pub nonzero : ℕ
  pub borrow : ℕ

-- One round: `nonzero |= s[i]`, then the difference as a uint16 and its top bit.
unfoldable pub borrow_step : ℕ → ℕ → Borrow → Borrow
borrow_step s n b =
    let d = (s + 2 * 2 ^ 16 - n - b.borrow) % 2 ^ 16 in
    record { nonzero = bit_or b.nonzero s; borrow = d / 2 ^ 15 % 2 }

-- The loop runs from the last byte to the first.
unfoldable pub borrow_loop : Bytes → Bytes → Borrow
borrow_loop [] n = record { nonzero = 0; borrow = 0 }
borrow_loop (s ∷ ss) [] = record { nonzero = 0; borrow = 0 }
borrow_loop (s ∷ ss) (n ∷ ns) = borrow_step s n (borrow_loop ss ns)

unfoldable pub scalar_in_range : Bytes → Bytes → Bool
scalar_in_range s n =
    let b = borrow_loop s n in
    if not (length s == length n) then false else not (b.nonzero == 0) && b.borrow == 1

pub data ScalarError : Type 0 where
  wrong_length : ℕ → ScalarError
  out_of_range : ScalarError
  short_read : ScalarError

unfoldable pub validate_private_scalar : Bytes → Bytes → Result ScalarError (Unit {0})
validate_private_scalar order scalar =
    if not (length scalar == 32)
    then err (wrong_length (length scalar))
    else if not (scalar_in_range scalar order)
    then err out_of_range
    else ok tt

-- `randomScalarFrom`, over fuel for its rounds; `none` stands for fuel that ran out.
unfoldable pub random_scalar_from : ℕ → ℕ → Bytes → Option (Result ScalarError Bytes × Bytes)
unfolding read_full
random_scalar_from zero n r = none
random_scalar_from (suc fuel) n r =
    let (drawn, rest) = read_full 32 r in
    let again = random_scalar_from fuel n rest in
    elim drawn [
      | none ↦ some (err short_read, rest)
      | some buf ↦ if ltb 0 (value buf) && ltb (value buf) n then some (ok buf, rest) else again
    ]
