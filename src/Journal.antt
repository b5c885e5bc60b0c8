-- ===== src/Journal.antt =====
-- internal/journal/journal.go: one entry in journald's native protocol, the names of fields, and the
-- handler that stops at the first write that fails.
mod Tests
pub mod Names
pub mod Decode
pub mod Handling
use synctang.Prelude.{
  ℕ, ◌+◌, ◌-◌, ◌*◌, ◌/◌, ◌%◌, ◌^◌, Bool, true, false, not, ◌&&◌, ◌||◌, ◌==◌, List, [], ◌∷◌, ◌++◌,
  Bytes, bytes_eq, codes, length, take, leb, ltb, if◌then◌else◌, Option, none, some,
}
use synctang.Text.{ℤ, pos, negsuc}

abbrev pub max_value : ℕ
max_value = 32 * 2 ^ 10

abbrev pub cut_note : Bytes
cut_note = codes " [cut]"

pub record Field : Type 0 where
  pub name : Bytes
  pub value : Bytes

-- `strings.ContainsAny(value, "\n\x00")`
unfoldable pub is_binary : Bytes → Bool
is_binary [] = false
is_binary (c ∷ s) = (c == 10 || c == 0) || is_binary s

-- `binary.LittleEndian.PutUint64`
unfoldable pub put_uint64 : ℕ → Bytes
put_uint64 n =
    n % 256
    ∷ n / 2 ^ 8 % 256
    ∷ n / 2 ^ 16 % 256
    ∷ n / 2 ^ 24 % 256
    ∷ n / 2 ^ 32 % 256
    ∷ n / 2 ^ 40 % 256
    ∷ n / 2 ^ 48 % 256
    ∷ n / 2 ^ 56 % 256
    ∷ []

unfoldable pub shortened : Bytes → Bytes
shortened value = if ltb max_value (length value) then take max_value value ++ cut_note else value

-- What `appendField` writes.
unfoldable pub field_bytes : Bytes → Bytes → Bytes
unfolding put_uint64 is_binary shortened
field_bytes name raw =
    let value = shortened raw in
    if not (is_binary value)
    then name ++ (b'=' ∷ (value ++ (10 ∷ [])))
    else name ++ (10 ∷ (put_uint64 (length value) ++ (value ++ (10 ∷ []))))

unfoldable pub fields_bytes : List Field → Bytes
unfolding field_bytes
fields_bytes [] = []
fields_bytes (f ∷ fs) = field_bytes f.name f.value ++ fields_bytes fs

-- The fields that every entry starts with.
abbrev pub leading : ℕ → Bytes → Bytes → List Field → List Field
leading priority identifier message fields =
    record { name = codes "PRIORITY"; value = (b'0' + priority % 10) ∷ [] }
    ∷ record { name = codes "SYSLOG_IDENTIFIER"; value = identifier }
    ∷ record { name = codes "MESSAGE"; value = message }
    ∷ fields

unfoldable pub encode : ℕ → Bytes → Bytes → List Field → Bytes
unfolding fields_bytes
encode priority identifier message fields =
    fields_bytes (leading priority identifier message fields)

-- One character of `FieldName`, for ASCII keys.
unfoldable pub name_char : ℕ → ℕ
name_char c =
    if leb b'a' c && leb c b'z'
    then c - 32
    else if (leb b'A' c && leb c b'Z') || (leb b'0' c && leb c b'9')
    then c
    else b'_'

abbrev pub name_chars : Bytes → Bytes
name_chars [] = []
name_chars (c ∷ s) = name_char c ∷ name_chars s

abbrev pub is_own : Bytes → Bool
is_own name =
    bytes_eq name (codes "MESSAGE")
    || (bytes_eq name (codes "PRIORITY") || bytes_eq name (codes "SYSLOG_IDENTIFIER"))

abbrev pub starts_badly : Bytes → Bool
starts_badly [] = true
starts_badly (c ∷ s) = c == b'_' || (leb b'0' c && leb c b'9')

-- For ASCII keys; `none` is the result `false`.
unfoldable pub field_name : Bytes → Option Bytes
unfolding name_char
field_name key =
    if starts_badly (name_chars key)
    then none
    else if is_own (name_chars key)
    then none
    else some (name_chars key)

abbrev at_least : ℕ → ℤ → Bool
at_least lo (pos n) = leb lo n
at_least lo (negsuc n) = false

-- The levels of log/slog: info 0, warn 4, error 8.
unfoldable pub priority_of : ℤ → ℕ
priority_of level =
    if at_least 8 level
    then 3
    else if at_least 4 level
    then 4
    else if at_least 0 level
    then 6
    else 7
