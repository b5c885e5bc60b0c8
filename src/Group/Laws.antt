-- ===== src/Group/Laws.antt =====
-- What the protocol relies on of a group, as laws on the encodings.
use synctang.Prelude.{ℕ, ◌≡◌, ◌⊎◌, Bytes, value, ok}
use synctang.Group.{Group}

pub record GroupLaws (g : Group) : Type 1 where
  pub Point : Type 0
  pub encode : Point → Bytes
  pub base : Point
  pub plus : Point → Point → Point
  pub minus : Point → Point
  pub act : ℕ → Point → Point
  pub IsScalar : Bytes → Type 0
  pub random_scalar-IsScalar :
      (src : g.Source) (s : Bytes) → (g.random_scalar src).0 ≡ ok s → IsScalar s
  pub scalar_base_mult-encode :
      (s : Bytes) → IsScalar s → g.scalar_base_mult s ≡ ok (encode (act (value s) base))
  pub scalar_mult-encode :
      (p : Point) (s : Bytes)
      → IsScalar s
      → g.scalar_mult (encode p) s ≡ ok (encode (act (value s) p))
  pub add-encode : (p q : Point) → g.add (encode p) (encode q) ≡ ok (encode (plus p q))
  pub negate-encode : (p : Point) → g.negate (encode p) ≡ ok (encode (minus p))
  pub lift_x-encode :
      (p : Point) (x : Bytes)
      → g.point_to_x (encode p) ≡ ok x
      → (even : Bytes) × (odd : Bytes) × (g.lift_x x ≡ ok (even, odd))
        × ((even ≡ encode p) ⊎ (odd ≡ encode p))
  pub plus-minus : (p q : Point) → plus (plus p q) (minus q) ≡ p
  pub act-plus : (k : ℕ) (p q : Point) → act k (plus p q) ≡ plus (act k p) (act k q)
  pub act-act : (j k : ℕ) (p : Point) → act j (act k p) ≡ act k (act j p)
