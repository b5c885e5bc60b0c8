-- ===== src/Scalar/Sampling.antt =====
-- What the rejection sampling draws from a reader.
use synctang.Prelude.{
  ℕ, zero, suc, ◌*◌, ◌<◌, ◌≤◌, ◌≡◌, inl, inr, ◌&&◌, Bytes, length, [], take, drop, length-take,
  length-drop, value, ltb, Bool-cases, Result, ok, err, some, arith,
}
use mathlib.Core.Path.{subst}
use synctang.Scalar.{ScalarError, short_read, random_scalar_from}

abbrev pub IsScalar : ℕ → Bytes → Type 0
IsScalar n s = (length s ≡ 32) × (0 < value s) × (value s < n)

-- A reader of whole 32-byte blocks: blocks outside [1, n-1] are passed over, the first one inside
-- is the draw, and a tail of fewer than 32 bytes is a short read.
pub data Draws (n : ℕ) : Bytes → Result ScalarError Bytes → Bytes → Type 0 where
  exhausted : {r : Bytes} → length r < 32 → Draws n r (err short_read) []
  accepted :
      {r : Bytes} → 32 ≤ length r → IsScalar n (take 32 r) → Draws n r (ok (take 32 r)) (drop 32 r)
  rejected :
      {r rest : Bytes} {out : Result ScalarError Bytes}
      → 32 ≤ length r
      → ¬ (IsScalar n (take 32 r))
      → Draws n (drop 32 r) out rest
      → Draws n r out rest

-- With one round more than there are blocks, the sampling ends, and what it returns is the first
-- 32-byte block of the reader that lies in [1, n-1], or a short read if there is none.
pub random_scalar_from-Draws :
    (fuel n : ℕ) (r : Bytes)
    → length r < 32 * fuel
    → (out : Result ScalarError Bytes) × (rest : Bytes) × (random_scalar_from fuel n r
        ≡ some (out, rest))
      × Draws n r out rest
unfolding random_scalar_from
random_scalar_from-Draws zero n r h = absurd (omega arith)
random_scalar_from-Draws (suc fuel) n r h = elim (Bool-cases (ltb (length r) 32)) [
  | inl short ↦ (err short_read, [], ground arith, Draws.exhausted (ground arith))
  | inr enough ↦
      let lo : 32 ≤ length r = ground arith in
      elim (Bool-cases (ltb 0 (value (take 32 r)) && ltb (value (take 32 r)) n)) [
        | inl good ↦ (
          ok (take 32 r),
          drop 32 r,
          ground arith,
          Draws.accepted lo (length-take 32 r lo, ground arith, ground arith),
        )
        | inr bad ↦
            let (out, rest, e, d) =
              random_scalar_from-Draws fuel n (drop 32 r) (omega (arith, length-drop 32 r)) in
            (out, rest, ground arith, Draws.rejected lo (λ s. ground arith) d)
      ]
]

Draws-IsScalar : {n : ℕ} {r s rest : Bytes} → Draws n r (ok s) rest → IsScalar n s
Draws-IsScalar (accepted lo h) = h
Draws-IsScalar (rejected lo bad d) = Draws-IsScalar d

-- Whatever the sampling returns without an error is a scalar: 32 bytes, in [1, n-1].
pub random_scalar_from-IsScalar :
    (fuel n : ℕ) (r s rest : Bytes)
    → length r < 32 * fuel
    → random_scalar_from fuel n r ≡ some (ok s, rest)
    → IsScalar n s
random_scalar_from-IsScalar fuel n r s rest h e =
    let (out, left, same, d) = random_scalar_from-Draws fuel n r h in
    let outs : out ≡ ok s = cc in Draws-IsScalar (subst (λ o. Draws n r o left) outs d)
