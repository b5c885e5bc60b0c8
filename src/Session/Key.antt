-- ===== src/Session/Key.antt =====
-- mobile/mobile.go: the key holder's scalar, its public point, and the x-coordinate that it answers.
use synctang.Group.{Group, is_uncompressed}
use synctang.Mr1.Finish.{validate_challenge_point}
use synctang.Scalar.{validate_private_scalar}
use synctang.Session.Failure.{
  Error, plain, because, with_kind, failure_protocol, protocol_failed, group_failed, bad_scalar,
  wrong_key, not_a_point,
}
use synctang.Prelude.{
  ℕ, not, Bytes, bytes_eq, length, take, drop, Result, ok, err, ◌>>=◌, map_err, fail_if,
  if◌then◌else◌,
}

abbrev pub coord_len : ℕ
coord_len = 32

module _ (g : Group) (order : Bytes) where
  abbrev pub checked_scalar : Bytes → Result Error (Unit {0})
  checked_scalar scalar =
      map_err (λ e. because (plain (bad_scalar e))) (validate_private_scalar order scalar)

  unfoldable pub public_point_of : Bytes → Result Error Bytes
  public_point_of scalar = do
    valid ← checked_scalar scalar
    map_err (λ e. because (plain (group_failed e))) (g.scalar_base_mult scalar)

  unfoldable pub check_key_pair : Bytes → Bytes → Result Error (Unit {0})
  unfolding public_point_of
  check_key_pair scalar expected_public = do
    got ← public_point_of scalar
    fail_if (not (bytes_eq got expected_public)) (plain wrong_key)

  -- The x-coordinate in the encoding of the product.
  unfoldable pub x_of_product : Bytes → Result Error Bytes
  x_of_product product =
      if not (is_uncompressed product)
      then err (plain (not_a_point (length product)))
      else ok (take coord_len (drop 1 product))

  unfoldable pub x_only_answer : Bytes → Bytes → Result Error Bytes
  unfolding x_of_product
  x_only_answer point scalar = do
    on_curve ←
        map_err (λ e. with_kind failure_protocol (because (plain (protocol_failed e))))
          (validate_challenge_point g point)
    valid ← checked_scalar scalar
    product ← map_err (λ e. because (plain (group_failed e))) (g.scalar_mult point scalar)
    x_of_product product
