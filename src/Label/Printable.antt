-- ===== src/Label/Printable.antt =====
-- What a safe label consists of, and how many characters it has.
use synctang.Label.{Unicode, ellipsis, is_unfit, fit_rune, safe_label}
use synctang.Prelude.{
  append_assoc, ℕ, zero, suc, ◌≤◌, ◌≡◌, refl, ap, sym, ◌∙◌, ◌⊎◌, inl, inr, Bool-cases, false, List,
  [], ◌∷◌, ◌++◌, Bytes, All, drop, length, arith,
}

module _ (u : Unicode) where
  -- A piece of a label: a question mark, or a character that is fit to print.
  abbrev pub IsPiece : Bytes → Type 0
  IsPiece piece =
      (piece ≡ b'?' ∷ []) ⊎ ((r : ℕ) × (piece ≡ u.append_rune r) × (is_unfit u r ≡ false))

  abbrev pub joined : List Bytes → Bytes
  joined [] = []
  joined (p ∷ ps) = p ++ joined ps

  -- The label, in pieces.
  pub record Pieces (n : ℕ) (label : Bytes) : Type 0 where
    pub pieces : List Bytes
    pub all_fit : All IsPiece pieces
    pub at_most : length pieces ≤ n
    pub spelled :
        (label ≡ joined pieces) ⊎ ((label ≡ joined pieces ++ ellipsis) × (length pieces ≡ n))

  fit_rune-IsPiece : (r : ℕ) → IsPiece (fit_rune u r)
  unfolding fit_rune
  fit_rune-IsPiece r = elim (Bool-cases (is_unfit u r)) [
    | inl e ↦ rw e (inl refl)
    | inr e ↦ rw e (inr (r, refl, e))
  ]

  one_more :
      (p label : Bytes) (pieces : List Bytes) (n : ℕ)
      → (label ≡ joined pieces) ⊎ ((label ≡ joined pieces ++ ellipsis) × (length pieces ≡ n))
      → (p ++ label ≡ joined (p ∷ pieces))
        ⊎ ((p ++ label ≡ joined (p ∷ pieces) ++ ellipsis) × (length (p ∷ pieces) ≡ suc n))
  one_more p label pieces n (inl e) = inl (ap (λ (b : Bytes). p ++ b) e)
  one_more p label pieces n (inr (e, k)) = inr (
    ap (λ (b : Bytes). p ++ b) e ∙ sym (append_assoc p (joined pieces) ellipsis),
    omega (arith, k),
  )

  -- Whatever text a peer chooses, what is shown of it is at most as many characters as are allowed,
  -- each of them fit to print or a question mark, with three dots after them only if there are exactly
  -- as many as are allowed.
  pub safe_label-Pieces : (s : Bytes) (n : ℕ) → Pieces n (safe_label u s n)
  unfolding safe_label
  safe_label-Pieces [] n = record {
    pieces = [];
    all_fit = tt;
    at_most = omega arith;
    spelled = inl refl;
  }
  safe_label-Pieces (c ∷ s) zero = record {
    pieces = [];
    all_fit = tt;
    at_most = omega arith;
    spelled = inr (refl, refl);
  }
  safe_label-Pieces (c ∷ s) (suc n) =
      let (r, size) = u.decode_rune (c ∷ s) in
      let rest = safe_label-Pieces (drop size (c ∷ s)) n in
      record {
        pieces = fit_rune u r ∷ rest.pieces;
        all_fit = (fit_rune-IsPiece r, rest.all_fit);
        at_most = omega (arith, rest.at_most);
        spelled =
            one_more (fit_rune u r) (safe_label u (drop size (c ∷ s)) n) rest.pieces n rest.spelled;
      }
