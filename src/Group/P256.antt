-- ===== src/Group/P256.antt =====
-- The P-256 implementation as a group in the sense of the protocol, over what nistec documents.
use synctang.Group.{
  Nistec, p256, p256_negate, p256_lift_x, p256_point_to_x, p256_add, p256_scalar_mult,
  p256_scalar_base_mult, p256_random_scalar, is_infinity, is_uncompressed, fill_bytes,
  negate_scalar_bytes,
}
use synctang.Group.Laws.{GroupLaws}
use synctang.Scalar
use synctang.Prelude.{
  ℕ, zero, suc, ◌+◌, ◌-◌, ◌/◌, ◌%◌, ◌^◌, ◌≤◌, ◌<◌, ◌≡◌, refl, ap, ◌⊎◌, inl, inr, true, false, ◌∷◌,
  Bytes, length, value, ok, err, Option-cases, Result-cases, some, arith,
}
use synctang.Scalar.Sampling.{IsScalar, random_scalar_from-IsScalar}
use native.Mathlib.Nat.{pow-suc, mod-lt, div-add-mod'}

-- The number n - 1 in 32 bytes has the value n - 1.
pow_pos : (k : ℕ) → 0 < 256 ^ k
pow_pos zero = omega arith
pow_pos (suc k) = rw (pow-suc 256 k) (grind (arith, pow_pos k))

length-fill_bytes : (k n : ℕ) → length (fill_bytes k n) ≡ k
unfolding fill_bytes
length-fill_bytes zero n = refl
length-fill_bytes (suc k) n = ap suc (length-fill_bytes k (n % 256 ^ k))

value-fill_bytes : (k n : ℕ) → n < 256 ^ k → value (fill_bytes k n) ≡ n
unfolding fill_bytes
value-fill_bytes zero n h = omega arith
value-fill_bytes (suc k) n h =
    rw (length-fill_bytes k (n % 256 ^ k), value-fill_bytes k (n % 256 ^ k) (mod-lt n (pow_pos k)))
      (div-add-mod' n (256 ^ k))

-- What the package documents. Points form a commutative group, `bytes` is the canonical encoding
-- that `set_bytes` reads back, a scalar is any 32-byte big-endian number, and an x-coordinate spells
-- two points, one the negative of the other, behind the prefixes 2 and 3.
pub record NistecLaws (nt : Nistec) : Type 0 where
  pub base : nt.Point
  pub zero_point : nt.Point
  pub act : ℕ → nt.Point → nt.Point
  pub order_pos : 0 < nt.order
  pub order_fits : nt.order ≤ 256 ^ 32
  pub set_bytes-bytes : (p : nt.Point) → nt.set_bytes (nt.bytes p) ≡ ok p
  pub bytes_form :
      (p : nt.Point)
      → ((p ≡ zero_point) × (is_infinity (nt.bytes p) ≡ true))
        ⊎ ((is_infinity (nt.bytes p) ≡ false) × (is_uncompressed (nt.bytes p) ≡ true))
  pub scalar_base_mult_lem :
      (s : Bytes) → length s ≡ 32 → nt.scalar_base_mult s ≡ ok (act (value s) base)
  pub scalar_mult_lem :
      (p : nt.Point) (s : Bytes) → length s ≡ 32 → nt.scalar_mult p s ≡ ok (act (value s) p)
  pub bytes_x_lem :
      (p : nt.Point) (x : Bytes)
      → nt.bytes_x p ≡ ok x
      → (length x ≡ 32)
        × (even : nt.Point) × (odd : nt.Point) × (nt.set_bytes (2 ∷ x) ≡ ok even)
        × (nt.set_bytes (3 ∷ x) ≡ ok odd)
        × ((even ≡ p) ⊎ (odd ≡ p))
  pub add_assoc : (p q r : nt.Point) → nt.add (nt.add p q) r ≡ nt.add p (nt.add q r)
  pub add_zero : (p : nt.Point) → nt.add p zero_point ≡ p
  pub add_negative : (p : nt.Point) → nt.add p (act (nt.order - 1) p) ≡ zero_point
  pub act-zero : (k : ℕ) → act k zero_point ≡ zero_point
  pub act-add : (k : ℕ) (p q : nt.Point) → act k (nt.add p q) ≡ nt.add (act k p) (act k q)
  pub act-act : (j k : ℕ) (p : nt.Point) → act j (act k p) ≡ act k (act j p)

module _ (nt : Nistec) (nl : NistecLaws nt) where
  value-negate_scalar : value (negate_scalar_bytes nt.order) ≡ nt.order - 1
  unfolding negate_scalar_bytes
  value-negate_scalar =
      value-fill_bytes 32 (nt.order - 1) (omega (arith, nl.order_fits, nl.order_pos))

  length-negate_scalar : length (negate_scalar_bytes nt.order) ≡ 32
  unfolding negate_scalar_bytes
  length-negate_scalar = length-fill_bytes 32 (nt.order - 1)

  random_of :
      (src t rest : Bytes)
      → Scalar.random_scalar_from (length src / 32 + 1) nt.order src ≡ some (ok t, rest)
      → (p256_random_scalar nt src).0 ≡ ok t
  unfolding p256_random_scalar
  random_of src t rest e = rw (e, p256_random_scalar)

  random-IsScalar : (src s : Bytes) → (p256_random_scalar nt src).0 ≡ ok s → IsScalar nt.order s
  unfolding p256_random_scalar
  random-IsScalar src s h =
      elim (Option-cases (Scalar.random_scalar_from (length src / 32 + 1) nt.order src)) [
        | inl e ↦ absurd (ground arith)
        | inr ((ok t, rest), e) ↦
            let same : t ≡ s = cc (random_of src t rest e) in
            random_scalar_from-IsScalar (length src / 32 + 1) nt.order src s rest (omega arith)
              (rw same at e)
        | inr ((err z, rest), e) ↦ absurd (ground arith)
      ]

  -- Negation by multiplying with the order less one is the inverse, on the point at infinity too.
  negate_lem :
      (p : nt.Point) → p256_negate nt (nt.bytes p) ≡ ok (nt.bytes (nl.act (nt.order - 1) p))
  unfolding p256_negate
  negate_lem p = elim (nl.bytes_form p) [
    | inl (at_zero, inf) ↦
        let same : nl.act (nt.order - 1) p ≡ p = rw at_zero (nl.act-zero (nt.order - 1)) in
        rw (inf, same)
    | inr (finite, form) ↦ ground (
      arith,
      nl.set_bytes-bytes p,
      nl.scalar_mult_lem p (negate_scalar_bytes nt.order) length-negate_scalar,
      value-negate_scalar,
    )
  ]

  lift_x_of :
      (p : nt.Point) (x : Bytes) → p256_point_to_x nt (nt.bytes p) ≡ ok x → nt.bytes_x p ≡ ok x
  unfolding p256_point_to_x
  lift_x_of p x h = elim (Result-cases (nt.bytes_x p)) [
    | inl (y, e) ↦ ground (arith, nl.set_bytes-bytes p)
    | inr (z, e) ↦ absurd (ground (arith, nl.set_bytes-bytes p))
  ]

  lift_lem :
      (p : nt.Point) (x : Bytes)
      → p256_point_to_x nt (nt.bytes p) ≡ ok x
      → (even : Bytes) × (odd : Bytes) × (p256_lift_x nt x ≡ ok (even, odd))
        × ((even ≡ nt.bytes p) ⊎ (odd ≡ nt.bytes p))
  unfolding p256_lift_x
  lift_lem p x h =
      let spelled : nt.bytes_x p ≡ ok x = lift_x_of p x h in
      let (size, even, odd, two, three, side) = nl.bytes_x_lem p x spelled in
      (
        nt.bytes even,
        nt.bytes odd,
        ground arith,
        elim side [ inl e ↦ inl (ap nt.bytes e) | inr e ↦ inr (ap nt.bytes e) ],
      )

  -- `p256Group` satisfies every law that the protocol relies on.
  pub p256-GroupLaws : GroupLaws (p256 nt)
  unfolding p256_scalar_base_mult p256_scalar_mult p256_add
  p256-GroupLaws = record {
    Point = nt.Point;
    encode = nt.bytes;
    base = nl.base;
    plus = nt.add;
    minus = nl.act (nt.order - 1);
    act = nl.act;
    IsScalar = IsScalar nt.order;
    random_scalar-IsScalar = random-IsScalar;
    scalar_base_mult-encode = λ s h. ground (arith, nl.scalar_base_mult_lem s h.0);
    scalar_mult-encode = λ p s h. ground (arith, nl.set_bytes-bytes p, nl.scalar_mult_lem p s h.0);
    add-encode = λ p q. ground (arith, nl.set_bytes-bytes p, nl.set_bytes-bytes q);
    negate-encode = negate_lem;
    lift_x-encode = lift_lem;
    plus-minus = λ p q. rw (nl.add_assoc, nl.add_negative) (nl.add_zero p);
    act-plus = nl.act-add;
    act-act = nl.act-act;
  }

  -- A scalar in [1, n-1] is one that the laws speak of.
  pub p256-IsScalar : (s : Bytes) → IsScalar nt.order s → (p256-GroupLaws).IsScalar s
  unfolding p256-GroupLaws
  p256-IsScalar s h = h

  -- On every point, the point at infinity included, `Negate` returns the encoding of a point that
  -- added to it gives the point at infinity.
  pub p256_negate_inverse :
      (p : nt.Point)
      → (q : nt.Point) × (p256_negate nt (nt.bytes p) ≡ ok (nt.bytes q))
        × (nt.add p q ≡ nl.zero_point)
  p256_negate_inverse p = (nl.act (nt.order - 1) p, negate_lem p, nl.add_negative p)
