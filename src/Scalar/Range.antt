-- ===== src/Scalar/Range.antt =====
-- The borrow of the byte-wise subtraction and the comparison of the two numbers (mrcore/group.go).
use synctang.Prelude.{
  ℕ, zero, suc, ◌+◌, ◌*◌, ◌^◌, ◌<◌, ◌≤◌, ◌≡◌, refl, ◌↔◌, true, [], ◌∷◌, Bytes, IsByte, All, length,
  value, value-lt, bit_or-eq-zero, ◌==◌, ==_iff, Bool-cases, not, ◌&&◌, inl, inr, ok, ◌-◌, ◌/◌, ◌%◌,
  ◌⊎◌, arith,
}
use native.Mathlib.Decide.{dec_lt, ℕ_discrete}
use synctang.Scalar.{Borrow, borrow_step, borrow_loop, scalar_in_range, validate_private_scalar}

-- The invariant of the loop: the number read so far is zero exactly when `nonzero` is, and the
-- borrow is 1 exactly when the scalar's tail is below the order's.
pub record Tracks (b : Borrow) (s n : ℕ) : Type 0 where
  pub zero_when : b.nonzero ≡ 0 → s ≡ 0
  pub when_zero : s ≡ 0 → b.nonzero ≡ 0
  pub below : s < n → b.borrow ≡ 1
  pub not_below : n ≤ s → b.borrow ≡ 0

borrow-le_one : (b : Borrow) (s n : ℕ) → Tracks b s n → b.borrow ≤ 1
borrow-le_one b s n t = grind arith

-- Two-digit numbers in a large base are compared digit by digit.
lt_digits :
    (s n base vs vn : ℕ)
    → vn < base
    → s * base + vs < n * base + vn
    → (s < n) ⊎ ((s ≡ n) × (vs < vn))
lt_digits s n base vs vn ln h = elim (dec_lt s n) [
  | yes p ↦ inl p
  | no p ↦ elim (ℕ_discrete s n) [ yes q ↦ inr (q, grind arith) | no q ↦ absurd (grind arith) ]
]

le_digits :
    (s n base vs vn : ℕ)
    → vs < base
    → n * base + vn ≤ s * base + vs
    → (n < s) ⊎ ((s ≡ n) × (vn ≤ vs))
le_digits s n base vs vn ln h = elim (dec_lt n s) [
  | yes p ↦ inl p
  | no p ↦ elim (ℕ_discrete s n) [ yes q ↦ inr (q, grind arith) | no q ↦ absurd (grind arith) ]
]

-- One digit of the subtraction.
digit_borrows :
    (s n β : ℕ) → n < 256 → s < n + β → β ≤ 1 → (s + 2 * 2 ^ 16 - n - β) % 2 ^ 16 / 2 ^ 15 % 2 ≡ 1
digit_borrows s n β hn h hb = omega arith

digit_keeps : (s n β : ℕ) → s < 256 → n + β ≤ s → (s + 2 * 2 ^ 16 - n - β) % 2 ^ 16 / 2 ^ 15 % 2 ≡ 0
digit_keeps s n β hs h = omega arith

nonzero_step : (s base vs : ℕ) → vs < base → s * base + vs ≡ 0 → (s ≡ 0) × (vs ≡ 0)
nonzero_step zero base vs l e = omega arith
nonzero_step (suc s) base vs l e = absurd (grind arith)

step-Tracks :
    (s n base : ℕ) (b : Borrow) (vs vn : ℕ)
    → s < 256
    → n < 256
    → vs < base
    → vn < base
    → Tracks b vs vn
    → Tracks (borrow_step s n b) (s * base + vs) (n * base + vn)
unfolding borrow_step
step-Tracks s n base b vs vn hs hn ls ln t = record {
  zero_when = λ e. let (p, q) = bit_or-eq-zero b.nonzero s e in rw (q, t.zero_when p) (omega arith);
  when_zero = λ e. let (p, q) = nonzero_step s base vs ls e in rw (p, t.when_zero q) refl;
  below = λ h. elim (lt_digits s n base vs vn ln h) [
    | inl p ↦ digit_borrows s n b.borrow hn (omega arith) (borrow-le_one b vs vn t)
    | inr (p, q) ↦
        digit_borrows s n b.borrow hn (omega (arith, t.below q)) (borrow-le_one b vs vn t)
  ];
  not_below = λ h. elim (le_digits s n base vs vn ls h) [
    | inl p ↦ digit_keeps s n b.borrow hs (omega (arith, borrow-le_one b vs vn t))
    | inr (p, q) ↦ digit_keeps s n b.borrow hs (omega (arith, t.not_below q))
  ];
}

borrow_loop-Tracks :
    (s n : Bytes)
    → All IsByte s
    → All IsByte n
    → length s ≡ length n
    → Tracks (borrow_loop s n) (value s) (value n)
unfolding borrow_loop
borrow_loop-Tracks [] [] hs hn e = omega arith
borrow_loop-Tracks [] (n ∷ ns) hs hn e = absurd (omega arith)
borrow_loop-Tracks (s ∷ ss) [] hs hn e = absurd (omega arith)
borrow_loop-Tracks (s ∷ ss) (n ∷ ns) (hs, hss) (hn, hns) e =
    let len : length ss ≡ length ns = omega arith in
    rw (← len) (
      step-Tracks s n (256 ^ length ss) (borrow_loop ss ns) (value ss) (value ns) hs hn
        (value-lt ss hss) (rw len (value-lt ns hns)) (borrow_loop-Tracks ss ns hss hns len))

range_test :
    (b : Borrow) (s n : ℕ)
    → Tracks b s n
    → ((not (b.nonzero == 0) && b.borrow == 1) ≡ true) ↔ ((0 < s) × (s < n))
range_test b s n t = (λ h. (grind arith, grind arith), λ h. grind arith)

-- `scalarInRange` accepts exactly the byte slices of the order's length that spell a number from 1
-- up to the order less one, for every pair of byte slices.
pub scalar_in_range_iff :
    (s n : Bytes)
    → All IsByte s
    → All IsByte n
    → (scalar_in_range s n ≡ true) ↔ ((length s ≡ length n) × (0 < value s) × (value s < value n))
unfolding scalar_in_range
scalar_in_range_iff s n hs hn = (there, back)
  where
    there : scalar_in_range s n ≡ true → (length s ≡ length n) × (0 < value s) × (value s < value n)
    there h = elim (Bool-cases (length s == length n)) [
      | inl same ↦
          let len : length s ≡ length n = (==_iff (length s) (length n)).0 same in
          let r = (range_test _ _ _ (borrow_loop-Tracks s n hs hn len)).0 (rw same at h) in
          (len, r.0, r.1)
      | inr differ ↦ absurd (cc (rw differ at h))
    ]

    back : (length s ≡ length n) × (0 < value s) × (value s < value n) → scalar_in_range s n ≡ true
    back (e, p, q) =
        rw ((==_iff (length s) (length n)).1 e)
          ((range_test _ _ _ (borrow_loop-Tracks s n hs hn e)).1 (p, q))

-- A scalar passes `ValidatePrivateScalar` exactly when it has 32 bytes and lies in [1, n-1].
pub validate_private_scalar_iff :
    (order scalar : Bytes)
    → All IsByte order
    → All IsByte scalar
    → length order ≡ 32
    → (validate_private_scalar order scalar ≡ ok tt)
      ↔ ((length scalar ≡ 32) × (0 < value scalar) × (value scalar < value order))
unfolding validate_private_scalar
validate_private_scalar_iff order scalar ho hs len =
    let in_range = scalar_in_range_iff scalar order hs ho in
    (λ h. grind (arith, in_range.0), λ k. ground (arith, in_range.1 (omega (arith, k.0), k.1, k.2)))
