-- ===== src/Group.antt =====
-- The `Group` interface of mrcore/group.go, and its P-256 implementation over the nistec package.
-- Points and scalars are opaque byte slices; nistec is a parameter.
pub mod Laws
pub mod P256
use synctang.Scalar.{random_scalar_from}
use synctang.Prelude.{
  ℕ, zero, suc, ◌+◌, ◌-◌, ◌/◌, ◌%◌, ◌^◌, Option, none, some, ◌==◌, not, ◌||◌, ◌&&◌, Bool, true,
  false, [], ◌∷◌, List, Bytes, length, Result, ok, err, ◌>>=◌, map_err, if◌then◌else◌,
}

pub data GroupError : Type 0 where
  base_mult_failed invalid_point mult_failed invalid_a invalid_b : GroupError
  not_uncompressed negate_failed no_x : GroupError
  wrong_x_length : ℕ → GroupError
  not_an_x : GroupError
  no_scalar : GroupError

-- `RandomScalar` draws from a source of randomness, which it leaves changed.
pub record Group : Type 1 where
  pub Source : Type 0
  pub random_scalar : Source → Result GroupError Bytes × Source
  pub scalar_base_mult : Bytes → Result GroupError Bytes
  pub scalar_mult : Bytes → Bytes → Result GroupError Bytes
  pub add : Bytes → Bytes → Result GroupError Bytes
  pub negate : Bytes → Result GroupError Bytes
  pub point_to_x : Bytes → Result GroupError Bytes
  pub lift_x : Bytes → Result GroupError (Bytes × Bytes)

-- What the implementation calls of filippo.io/nistec: a point type and its operations, any of which
-- may refuse, and the order of the curve's group.
pub record Nistec : Type 1 where
  pub Point : Type 0
  pub order : ℕ
  pub set_bytes : Bytes → Result (Unit {0}) Point
  pub bytes : Point → Bytes
  pub bytes_x : Point → Result (Unit {0}) Bytes
  pub add : Point → Point → Point
  pub scalar_mult : Point → Bytes → Result (Unit {0}) Point
  pub scalar_base_mult : Bytes → Result (Unit {0}) Point

abbrev pub p256_coord_len : ℕ
p256_coord_len = 32

abbrev pub p256_point_len : ℕ
p256_point_len = 65

-- `len(point) == 1 && point[0] == 0`, and `len(point) != 65 || point[0] != 0x04`
abbrev pub is_infinity : Bytes → Bool
is_infinity (b ∷ []) = b == 0
is_infinity _ = false

abbrev pub is_uncompressed : Bytes → Bool
is_uncompressed [] = false
is_uncompressed (b ∷ bs) = length (b ∷ bs) == p256_point_len && b == 4

-- A number below 256 ^ k, big-endian in k bytes: its `Bytes` copied to the end of a zeroed slice.
unfoldable pub fill_bytes : ℕ → ℕ → Bytes
fill_bytes zero n = []
fill_bytes (suc k) n = n / 256 ^ k ∷ fill_bytes k (n % 256 ^ k)

-- `negateScalarBytes`
unfoldable pub negate_scalar_bytes : ℕ → Bytes
negate_scalar_bytes order = fill_bytes p256_coord_len (order - 1)

module _ (nt : Nistec) where
  -- The source is what the system's generator has still to deliver; the fuel is one round more than
  -- it holds blocks.
  unfoldable pub p256_random_scalar : Bytes → Result GroupError Bytes × Bytes
  p256_random_scalar r = elim (random_scalar_from (length r / 32 + 1) nt.order r) [
    | none ↦ (err no_scalar, r)
    | some drawn ↦ (map_err (λ _. no_scalar) drawn.0, drawn.1)
  ]

  unfoldable pub p256_scalar_base_mult : Bytes → Result GroupError Bytes
  p256_scalar_base_mult scalar = do
    p ← map_err (λ _. base_mult_failed) (nt.scalar_base_mult scalar)
    ok (nt.bytes p)

  unfoldable pub p256_scalar_mult : Bytes → Bytes → Result GroupError Bytes
  p256_scalar_mult point scalar = do
    q ← map_err (λ _. invalid_point) (nt.set_bytes point)
    r ← map_err (λ _. mult_failed) (nt.scalar_mult q scalar)
    ok (nt.bytes r)

  unfoldable pub p256_add : Bytes → Bytes → Result GroupError Bytes
  p256_add a b = do
    pa ← map_err (λ _. invalid_a) (nt.set_bytes a)
    pb ← map_err (λ _. invalid_b) (nt.set_bytes b)
    ok (nt.bytes (nt.add pa pb))

  unfoldable pub p256_negate : Bytes → Result GroupError Bytes
  p256_negate point =
      let negated : Result GroupError Bytes = (do
        p ← map_err (λ _. invalid_point) (nt.set_bytes point)
        r ← map_err (λ _. negate_failed) (nt.scalar_mult p (negate_scalar_bytes nt.order))
        ok (nt.bytes r)) in
      if is_infinity point
      then ok point
      else if not (is_uncompressed point)
      then err not_uncompressed
      else negated

  unfoldable pub p256_point_to_x : Bytes → Result GroupError Bytes
  p256_point_to_x point = do
    p ← map_err (λ _. invalid_point) (nt.set_bytes point)
    map_err (λ _. no_x) (nt.bytes_x p)

  unfoldable pub p256_lift_x : Bytes → Result GroupError (Bytes × Bytes)
  p256_lift_x x =
      let lifted : Result GroupError (Bytes × Bytes) = (do
        pe ← map_err (λ _. not_an_x) (nt.set_bytes (2 ∷ x))
        po ← map_err (λ _. not_an_x) (nt.set_bytes (3 ∷ x))
        ok (nt.bytes pe, nt.bytes po)) in
      if not (length x == p256_coord_len) then err (wrong_x_length (length x)) else lifted

  abbrev pub p256 : Group
  p256 = record {
    Source = Bytes;
    random_scalar = p256_random_scalar;
    scalar_base_mult = p256_scalar_base_mult;
    scalar_mult = p256_scalar_mult;
    add = p256_add;
    negate = p256_negate;
    point_to_x = p256_point_to_x;
    lift_x = p256_lift_x;
  }
