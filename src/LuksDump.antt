-- ===== src/LuksDump.antt =====
-- cmd/synctang-unlocker/luksdump.go: the sections of a "cryptsetup luksDump" text, the keyslots in
-- use, the lowest free one, and the tokens of a type.
pub mod Slots
pub mod Sections
mod Tests
use synctang.Prelude.{
  ℕ, zero, suc, ◌+◌, Bool, true, false, not, ◌&&◌, ◌||◌, List, [], ◌∷◌, ◌++◌, Bytes, bytes_eq,
  codes, if◌then◌else◌, Option, none, some, Result, ok, err, ◌==◌,
}
use synctang.Text.{ℤ, pos, negsuc, split, has_prefix, trim_space, cut, atoi}

abbrev pub max_keyslots : ℕ
max_keyslots = 32

abbrev pub newline : ℕ
newline = 10

abbrev pub colon : ℕ
colon = b':'

-- `!HasPrefix(line, " ") && !HasPrefix(line, "\t")`
unfoldable pub is_heading : Bytes → Bool
is_heading [] = true
is_heading (c ∷ l) = not (c == 32) && not (c == 9)

-- The loop of `parseSection`; the flag is `inSection`.
unfoldable pub section_loop : Bytes → Bool → List Bytes → List Bytes
unfolding is_heading
section_loop heading inside [] = []
section_loop heading inside (line ∷ lines) =
    let opened =
      section_loop heading (bytes_eq (trim_space line) (heading ++ (colon ∷ []))) lines in
    let kept = section_loop heading inside lines in
    if is_heading line then opened else if inside then line ∷ kept else kept

unfoldable pub parse_section : Bytes → Bytes → List Bytes
parse_section dump heading = section_loop heading false (split newline dump)

pub record Entry : Type 0 where
  pub id : ℤ
  pub rest : Bytes

-- One line of a section: a detail line, or a line with no colon or no number, gives nothing.
unfoldable pub entry_of : Bytes → Option Entry
entry_of line = if has_prefix line (9 ∷ []) then none else elim (cut colon (trim_space line)) [
  | none ↦ none
  | some parts ↦ elim (atoi (trim_space parts.0)) [
    | none ↦ none
    | some n ↦ some (record { id = n; rest = trim_space parts.1 })
  ]
]

unfoldable pub entry_ids : List Bytes → List Entry
entry_ids [] = []
entry_ids (line ∷ lines) = elim (entry_of line) [
  | none ↦ entry_ids lines
  | some e ↦ e ∷ entry_ids lines
]

abbrev pub ids_of : List Entry → List ℤ
ids_of [] = []
ids_of (e ∷ es) = e.id ∷ ids_of es

unfoldable pub used_keyslots : Bytes → List ℤ
used_keyslots dump = ids_of (entry_ids (parse_section dump (codes "Keyslots")))

-- `used[i]`
abbrev pub is_slot : ℕ → ℤ → Bool
is_slot i (pos n) = i == n
is_slot i (negsuc n) = false

abbrev pub is_used : List ℤ → ℕ → Bool
is_used [] i = false
is_used (id ∷ ids) i = is_slot i id || is_used ids i

-- The search from slot `i`, with `left` slots still to try.
unfoldable pub free_from : List ℤ → ℕ → ℕ → Option ℕ
free_from used zero i = none
free_from used (suc left) i =
    let later = free_from used left (i + 1) in if not (is_used used i) then some i else later

-- `none` is the error "no free keyslot".
unfoldable pub lowest_free_keyslot : Bytes → Option ℕ
unfolding free_from
lowest_free_keyslot dump = free_from (used_keyslots dump) max_keyslots 0

unfoldable pub of_type : Bytes → List Entry → List ℤ
of_type token_type [] = []
of_type token_type (e ∷ es) =
    let later = of_type token_type es in if bytes_eq e.rest token_type then e.id ∷ later else later

unfoldable pub token_ids_of_type : Bytes → Bytes → List ℤ
unfolding of_type
token_ids_of_type dump token_type =
    of_type token_type (entry_ids (parse_section dump (codes "Tokens")))
