-- ===== src/Mr1/Toy.antt =====
-- A group of three points and a cipher that stores its key: they satisfy the laws that the protocol
-- assumes, so that its theorems can be applied.
use synctang.Group.{Nistec, is_infinity, is_uncompressed}
use synctang.Group.P256.{NistecLaws}
use synctang.Io.{read_full}
use synctang.Mr1.Crypto.{Crypto}
use synctang.Prelude.{
  ℕ, ◌%◌, ◌≡◌, refl, ◌⊎◌, inl, inr, [], ◌∷◌, ◌++◌, Bytes, bytes_eq, bytes_eq_refl, ap, length,
  length-take, replicate, value, ◌==◌, if◌then◌else◌, take, drop, take-append, drop-append, Result,
  ok, err, Option, none, some, true, false, arith, Bool-cases, ltb, ltb→ge,
}

pub data Point : Type 0 where
  zero_point one_point two_point : Point

pub data Residue : Type 0 where
  r0 r1 r2 : Residue

abbrev residue : ℕ → Residue
residue k = if k % 3 == 0 then r0 else if k % 3 == 1 then r1 else r2

abbrev negate : Point → Point
negate zero_point = zero_point
negate one_point = two_point
negate two_point = one_point

abbrev act_by : Residue → Point → Point
act_by r0 p = zero_point
act_by r1 p = p
act_by r2 p = negate p

abbrev plus : Point → Point → Point
plus zero_point q = q
plus one_point zero_point = one_point
plus one_point one_point = two_point
plus one_point two_point = zero_point
plus two_point zero_point = two_point
plus two_point one_point = zero_point
plus two_point two_point = one_point

abbrev coordinate : Bytes
coordinate = replicate 32 1

abbrev encode : Point → Bytes
encode zero_point = 0 ∷ []
encode one_point = 4 ∷ coordinate ++ replicate 32 1
encode two_point = 4 ∷ coordinate ++ replicate 32 2

abbrev decode : Bytes → Result (Unit {0}) Point
decode b =
    if bytes_eq b (0 ∷ [])
    then ok zero_point
    else if bytes_eq b (encode one_point)
    then ok one_point
    else if bytes_eq b (encode two_point)
    then ok two_point
    else if bytes_eq b (2 ∷ coordinate)
    then ok one_point
    else if bytes_eq b (3 ∷ coordinate)
    then ok two_point
    else err tt

abbrev x_of : Point → Result (Unit {0}) Bytes
x_of zero_point = err tt
x_of one_point = ok coordinate
x_of two_point = ok coordinate

abbrev pub three : Nistec
three = record {
  Point = Point;
  order = 3;
  set_bytes = decode;
  bytes = encode;
  bytes_x = x_of;
  add = plus;
  scalar_mult = λ p s. ok (act_by (residue (value s)) p);
  scalar_base_mult = λ s. ok (act_by (residue (value s)) one_point);
}

plus_assoc : (p q r : Point) → plus (plus p q) r ≡ plus p (plus q r)
plus_assoc p q r = ground arith

plus_zero : (p : Point) → plus p zero_point ≡ p
plus_zero zero_point = refl
plus_zero _ = refl

plus_negate : (p : Point) → plus p (negate p) ≡ zero_point
plus_negate zero_point = refl
plus_negate _ = refl

act_by_zero : (r : Residue) → act_by r zero_point ≡ zero_point
act_by_zero r0 = refl
act_by_zero _ = refl

act_by_plus : (r : Residue) (p q : Point) → act_by r (plus p q) ≡ plus (act_by r p) (act_by r q)
act_by_plus r p q = ground arith

act_by_comm : (r s : Residue) (p : Point) → act_by r (act_by s p) ≡ act_by s (act_by r p)
act_by_comm r s p = ground arith

decode-encode : (p : Point) → decode (encode p) ≡ ok p
decode-encode zero_point = refl
decode-encode _ = refl

encode_form :
    (p : Point)
    → ((p ≡ zero_point) × (is_infinity (encode p) ≡ true))
      ⊎ ((is_infinity (encode p) ≡ false) × (is_uncompressed (encode p) ≡ true))
encode_form zero_point = inl (refl, refl)
encode_form one_point = inr (refl, refl)
encode_form two_point = inr (refl, refl)

x_of_lem :
    (p : Point) (x : Bytes)
    → x_of p ≡ ok x
    → (length x ≡ 32)
      × (even : Point) × (odd : Point) × (decode (2 ∷ x) ≡ ok even)
      × (decode (3 ∷ x) ≡ ok odd)
      × ((even ≡ p) ⊎ (odd ≡ p))
x_of_lem zero_point x h = absurd (cc)
x_of_lem one_point x h =
    let e : coordinate ≡ x = cc in rw (← e) (refl, one_point, two_point, refl, refl, inl refl)
x_of_lem two_point x h =
    let e : coordinate ≡ x = cc in rw (← e) (refl, one_point, two_point, refl, refl, inr refl)

pub three-NistecLaws : NistecLaws three
three-NistecLaws = record {
  base = one_point;
  zero_point = zero_point;
  act = λ k. act_by (residue k);
  order_pos = omega arith;
  order_fits = omega arith;
  set_bytes-bytes = decode-encode;
  bytes_form = encode_form;
  scalar_base_mult_lem = λ s h. refl;
  scalar_mult_lem = λ p s h. refl;
  bytes_x_lem = x_of_lem;
  add_assoc = plus_assoc;
  add_zero = plus_zero;
  add_negative = plus_negate;
  act-zero = λ k. act_by_zero (residue k);
  act-add = λ k. act_by_plus (residue k);
  act-act = λ j k. act_by_comm (residue j) (residue k);
}

abbrev open_store : Bytes → Bytes → Option Bytes
open_store key [] = none
open_store key (n ∷ rest) = if bytes_eq (take n rest) key then some (drop n rest) else none

abbrev pub store : Crypto
store = record {
  sha256 = λ b. take 4 b;
  hkdf_key = λ x kid. some (take 2 x ++ kid);
  Aead = Bytes;
  new_gcm = λ key. some key;
  seal = λ key n p. length key ∷ (key ++ p);
  open_sealed = λ key n ct. open_store key ct;
}

abbrev pub rand_bytes : ℕ → Bytes → Option Bytes × Bytes
rand_bytes n src = read_full n src

pub open_store_self : (a p : Bytes) → open_store a (length a ∷ (a ++ p)) ≡ some p
open_store_self a p = rw (take-append a p, bytes_eq_refl a) (ap some (drop-append a p))

pub open_store-other : (a b p q : Bytes) → open_store b (length a ∷ (a ++ p)) ≡ some q → q ≡ p
open_store-other a b p q h = elim (Bool-cases (bytes_eq a b)) [
  | inl e ↦ ground (arith, take-append a p, drop-append a p)
  | inr e ↦ absurd (ground (arith, take-append a p))
]

pub rand_bytes_full : (n : ℕ) (src b : Bytes) → (rand_bytes n src).0 ≡ some b → length b ≡ n
unfolding read_full
rand_bytes_full n src b h = elim (Bool-cases (ltb (length src) n)) [
  | inl short ↦ absurd (ground arith)
  | inr enough ↦
      let same : take n src ≡ b = ground arith in
      rw (← same) (length-take n src (ltb→ge (length src) n enough))
]
