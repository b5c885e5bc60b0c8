-- ===== src/Mr1/Tests.antt =====
-- A run of the protocol in the group of three points, and the theorems at that run.
use synctang.Group.{
  Group, p256, p256_random_scalar, p256_scalar_base_mult, p256_scalar_mult, p256_add, p256_negate,
  p256_point_to_x,
}
use synctang.Group.P256.{p256-GroupLaws, p256-IsScalar, p256_negate_inverse}
use synctang.Io.{read_full}
use synctang.Mr1.Crypto.{Recipient, wipe, aead_seal}
use synctang.Mr1.Facts.{CryptoLaws}
use synctang.Mr1.Finish.{derive_key, finish_full_point, finish_x_only, validate_challenge_point}
use synctang.Mr1.Guards.{finish_bad_nonce, enrol_shape, EnrolShape, validate_challenge_point_sound}
use synctang.Mr1.Recovery.{finish_full_point-enrol, finish_x_only-enrol}
use synctang.Mr1.Start.{enrol, challenge_start}
use synctang.Mr1.Toy.{
  one_point, three, three-NistecLaws, store, rand_bytes, open_store_self, open_store-other,
  rand_bytes_full,
}
use synctang.Prelude.{ℕ, ◌≡◌, ◌≢◌, refl, [], ◌∷◌, ◌++◌, Bytes, replicate, ok, arith}
use synctang.Scalar.{random_scalar_from}

abbrev pub g : Group
g = p256 three

pub store_laws : CryptoLaws g store rand_bytes
store_laws = record {
  open-seal = λ a n p h. open_store_self a p;
  open-seal_other = λ a b n p q h. open_store-other a b p q h;
  rand_read_full = rand_bytes_full;
}

abbrev pub scalar_of : ℕ → Bytes
scalar_of k = replicate 31 0 ++ (k ∷ [])

-- What the generator delivers to the enrolment: the secret, a rejected block, the scalar, the nonce.
abbrev pub enrol_source : Bytes
enrol_source = replicate 32 9 ++ (replicate 32 255 ++ (scalar_of 2 ++ replicate 12 5))

abbrev pub xs : Bytes
xs = replicate 32 1

abbrev pub point_one : Bytes
point_one = 4 ∷ xs ++ replicate 32 1

abbrev pub point_two : Bytes
point_two = 4 ∷ xs ++ replicate 32 2

abbrev pub entry : Recipient
entry = record {
  kid = 4 ∷ 1 ∷ 1 ∷ 1 ∷ [];
  s = point_two;
  c = point_two;
  ciphertext = 6 ∷ 1 ∷ 1 ∷ 4 ∷ 1 ∷ 1 ∷ 1 ∷ replicate 32 9;
  nonce = replicate 12 5;
  transport = [];
}

pub enrol_run : enrol g store rand_bytes point_two enrol_source ≡ (ok (replicate 32 9, entry), [])
unfolding enrol derive_key aead_seal read_full p256_random_scalar random_scalar_from
    p256_scalar_base_mult p256_scalar_mult p256_point_to_x
enrol_run = refl

-- The machine draws e = 1, so it sends 2G + 1G: the point at infinity, which no key holder answers.
-- With e = 2 it sends 2G + 2G = G, and the key holder with scalar 2 answers 2G.
pub challenge_run :
    challenge_start g store rand_bytes point_two (scalar_of 2) ≡ (ok (scalar_of 2, point_one), [])
unfolding challenge_start p256_random_scalar random_scalar_from read_full p256_scalar_base_mult
    p256_add
challenge_run = refl

pub answer_run : g.scalar_mult point_one (scalar_of 2) ≡ ok point_two
unfolding p256_scalar_mult
answer_run = refl

pub holder_run : g.scalar_base_mult (scalar_of 2) ≡ ok point_two
unfolding p256_scalar_base_mult
holder_run = refl

pub coordinate_run : g.point_to_x point_two ≡ ok xs
unfolding p256_point_to_x
coordinate_run = refl

finish_full_point-enrol_example :
    finish_full_point g store (scalar_of 2) entry point_two
    ≡ (ok (replicate 32 9), wipe (scalar_of 2))
finish_full_point-enrol_example =
    finish_full_point-enrol g store rand_bytes (p256-GroupLaws three three-NistecLaws) store_laws
      (scalar_of 2) point_two (replicate 32 9) (scalar_of 2) point_one point_two entry enrol_source
      [] (scalar_of 2) []
      (p256-IsScalar three three-NistecLaws (scalar_of 2) (refl, omega arith, omega arith))
      holder_run enrol_run challenge_run answer_run

finish_x_only-enrol_example :
    finish_x_only g store (scalar_of 2) entry xs ≡ (ok (replicate 32 9), wipe (scalar_of 2))
finish_x_only-enrol_example =
    finish_x_only-enrol g store rand_bytes (p256-GroupLaws three three-NistecLaws) store_laws
      (scalar_of 2) point_two (replicate 32 9) (scalar_of 2) point_one point_two xs entry
      enrol_source [] (scalar_of 2) []
      (p256-IsScalar three three-NistecLaws (scalar_of 2) (refl, omega arith, omega arith))
      holder_run enrol_run challenge_run answer_run coordinate_run

enrol_shape_example : EnrolShape store point_two (replicate 32 9) entry
enrol_shape_example =
    enrol_shape g store rand_bytes point_two (replicate 32 9) entry enrol_source []
      store_laws.rand_read_full enrol_run

-- A nonce of 11 bytes.
abbrev cut_entry : Recipient
cut_entry = record entry { nonce = replicate 11 5 }

finish_bad_nonce_example :
    ((q : Bytes) → (finish_full_point g store (scalar_of 2) cut_entry point_two).0 ≢ ok q)
    × ((q : Bytes) → (finish_x_only g store (scalar_of 2) cut_entry xs).0 ≢ ok q)
    × ((finish_full_point g store (scalar_of 2) cut_entry point_two).1 ≡ wipe (scalar_of 2))
    × ((finish_x_only g store (scalar_of 2) cut_entry xs).1 ≡ wipe (scalar_of 2))
finish_bad_nonce_example =
    finish_bad_nonce g store (scalar_of 2) point_two xs cut_entry (omega arith)

validate_run : validate_challenge_point g point_two ≡ ok tt
unfolding validate_challenge_point p256_point_to_x
validate_run = refl

validate_challenge_point_sound_example :
    (p : three.Point) × (xc : Bytes) × (three.set_bytes point_two ≡ ok p)
    × (three.bytes_x p ≡ ok xc)
    × (point_two ≢ 0 ∷ [])
validate_challenge_point_sound_example = validate_challenge_point_sound three point_two validate_run

p256_negate_inverse_example :
    (q : three.Point) × (p256_negate three (three.bytes one_point) ≡ ok (three.bytes q))
    × (three.add one_point q ≡ three-NistecLaws.zero_point)
p256_negate_inverse_example = p256_negate_inverse three three-NistecLaws one_point
