-- ===== src/Pair/Console.antt =====
-- cmd/synctang-unlocker/pair.go: the operator's questions and the link that the QR code encodes.
-- strings.ToLower and net/url are parameters.
use synctang.Enrol.Entries.{is_empty}
use synctang.Text.{trim_space}
use synctang.Prelude.{
  Bool, true, false, not, ◌||◌, List, [], ◌∷◌, ◌++◌, Bytes, bytes_eq, codes, Option, none, some,
  Result, ok, err, if◌then◌else◌,
}

-- Where the answers are read from.
pub data Answers : Type 0 where
  from_stdin from_terminal : Answers

pub data NoTerminal : Type 0 where
  no_terminal : NoTerminal

-- `has_tty` says whether a terminal can be opened; without one there is nobody to ask.
unfoldable pub confirmation_input : Bytes → Bool → Bool → Result NoTerminal Answers
confirmation_input passphrase_file assume_yes has_tty =
    if not (bytes_eq passphrase_file (codes "-")) || assume_yes
    then ok from_stdin
    else if has_tty
    then ok from_terminal
    else err no_terminal

unfoldable pub is_yes : (Bytes → Bytes) → Bytes → Bool
unfolding trim_space
is_yes to_lower line =
    bytes_eq (to_lower (trim_space line)) (codes "y")
    || bytes_eq (to_lower (trim_space line)) (codes "yes")

-- `pairConfirmer` and `pairReplaceConfirmer`, which differ in the text of the question: the answer to one
-- line of input, `none` where it cannot be read.
unfoldable pub pair_confirmer : (Bytes → Bytes) → Bool → Option Bytes → Bool
unfolding is_yes
pair_confirmer to_lower assume_yes line =
    if assume_yes then true else elim line [ none ↦ false | some l ↦ is_yes to_lower l ]

-- `q.Set` of a value that may be left out.
abbrev set_unless_empty : Bytes → Bytes → List (Bytes × Bytes) → List (Bytes × Bytes)
set_unless_empty key val q = if is_empty val then q else (key, val) ∷ q

-- `encode` is `url.Values.Encode`, of keys that are all different.
unfoldable pub pairing_url : (List (Bytes × Bytes) → Bytes) → Bytes → Bytes → Bytes → Bytes → Bytes
pairing_url encode machine_id name encoded_secret discovery =
    codes "synctang://pair?"
    ++ encode (
        (codes "machine", machine_id)
        ∷ set_unless_empty (codes "name") name
            (set_unless_empty (codes "discovery") discovery ((codes "psk", encoded_secret) ∷ [])))
