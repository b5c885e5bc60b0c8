-- ===== src/Label.antt =====
-- mrcore/label.go: text that the other side of a connection has chosen, made fit to print. Package
-- unicode is a parameter; a character is its code point.
mod Printable
mod Tests
use synctang.Prelude.{
  ℕ, zero, suc, ◌+◌, Bool, ◌||◌, ◌==◌, [], ◌∷◌, ◌++◌, Bytes, codes, drop, if◌then◌else◌,
}

-- `utf8.DecodeRuneInString` of a text that is not empty: the character and the bytes that it takes.
-- `append_rune` is the encoding of a character, `is_control` and `is_format` are its classes.
pub record Unicode : Type 0 where
  pub decode_rune : Bytes → ℕ × ℕ
  pub append_rune : ℕ → Bytes
  pub is_control : ℕ → Bool
  pub is_format : ℕ → Bool

-- U+FFFD, which also stands for bytes that are not UTF-8.
abbrev pub rune_error : ℕ
rune_error = 65533

abbrev pub ellipsis : Bytes
ellipsis = codes "..."

module _ (u : Unicode) where
  abbrev pub is_unfit : ℕ → Bool
  is_unfit r = r == rune_error || (u.is_control r || u.is_format r)

  unfoldable pub fit_rune : ℕ → Bytes
  fit_rune r = if is_unfit r then b'?' ∷ [] else u.append_rune r

  -- `n` counts down from `maxRunes`.
  unfoldable pub safe_label : Bytes → ℕ → Bytes
  unfolding fit_rune
  safe_label [] n = []
  safe_label (c ∷ s) zero = ellipsis
  safe_label (c ∷ s) (suc n) =
      let (r, size) = u.decode_rune (c ∷ s) in fit_rune r ++ safe_label (drop size (c ∷ s)) n
