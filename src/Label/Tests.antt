-- ===== src/Label/Tests.antt =====
-- A label at a toy reading of characters: one byte each, control characters below 32.
use synctang.Label.{Unicode, safe_label, fit_rune}
use synctang.Label.Printable.{Pieces, safe_label-Pieces}
use synctang.Prelude.{ℕ, ◌≡◌, refl, Bytes, false, [], ◌∷◌, codes, ltb}

abbrev first_byte : Bytes → ℕ × ℕ
first_byte [] = (65533, 0)
first_byte (c ∷ s) = (c, 1)

abbrev ascii : Unicode
ascii = record {
  decode_rune = first_byte;
  append_rune = λ r. r ∷ [];
  is_control = λ r. ltb r 32;
  is_format = λ r. false;
}

cut_run : safe_label ascii (b'a' ∷ 27 ∷ b'b' ∷ []) 2 ≡ codes "a?..."
unfolding safe_label fit_rune
cut_run = refl

whole_run : safe_label ascii (codes "ab") 2 ≡ codes "ab"
unfolding safe_label fit_rune
whole_run = refl

safe_label-Pieces_example : Pieces ascii 2 (safe_label ascii (b'a' ∷ 27 ∷ b'b' ∷ []) 2)
safe_label-Pieces_example = safe_label-Pieces ascii (b'a' ∷ 27 ∷ b'b' ∷ []) 2
