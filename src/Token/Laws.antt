-- ===== src/Token/Laws.antt =====
-- What encoding/json documents of the encodings that mrcore/token.go uses.
use synctang.Assoc.{Assoc, lookup, HasKeys}
use synctang.Mr1.Crypto.{Recipient}
use synctang.Prelude.{ℕ, ◌≡◌, ◌<◌, ◌^◌, Bool, true, [], ◌∷◌, Bytes, All, Option, none, some, map}
use synctang.Text.{pos}
use synctang.Token.Codec.{Slice, nil, slice, elements, MachineInfo, Token, Coder, Json}

abbrev pub Reads : {A : Type 0} → Coder A → A → A → Type 0
Reads c x y = (b : Bytes) → c.encode x ≡ some b → c.decode b ≡ some y

abbrev pub Compacts : {A : Type 0} → (Bytes → Bytes) → Coder A → Type 0
Compacts {A} compact c = (x : A) (b : Bytes) → c.encode x ≡ some b → compact b ≡ b

-- A raw message that is not empty comes back compacted.
abbrev pub compacted : (Bytes → Bytes) → Bytes → Bytes
compacted compact [] = []
compacted compact (c ∷ s) = compact (c ∷ s)

abbrev pub read_entry : (Bytes → Bytes) → Recipient → Recipient
read_entry compact r = record r { transport = compacted compact r.transport }

abbrev pub read_entries : (Bytes → Bytes) → Slice Recipient → Slice Recipient
read_entries compact nil = nil
read_entries compact (slice rs) = slice (map (read_entry compact) rs)

abbrev pub read_raw : (Bytes → Bytes) → Option Bytes → Option Bytes
read_raw compact none = none
read_raw compact (some v) = some (compact v)

-- `valid` is utf8.ValidString, and `compact` is what Marshal makes of a raw message: json.Compact, with
-- the characters of HTML escaped. Text that is valid UTF-8 comes back as it was, and so do numbers, byte
-- slices and nil slices. What Marshal writes is compact.
pub record JsonLaws (json : Json) (valid : Bytes → Bool) (compact : Bytes → Bytes) : Type 0 where
  pub ascii : (s : Bytes) → All (λ c. c < 128) s → valid s ≡ true
  pub text : (s : Bytes) → valid s ≡ true → Reads json.text s s
  pub int : (n : ℕ) → n < 2 ^ 63 → Reads json.int (pos n) (pos n)
  pub slots : (s : Slice Bytes) → All (λ t. valid t ≡ true) (elements s) → Reads json.slots s s
  pub entries : (s : Slice Recipient) → Reads json.entries s (read_entries compact s)
  pub info :
      (i : MachineInfo) → valid i.name ≡ true → valid i.transport_id ≡ true → Reads json.info i i
  pub text_compact : Compacts compact json.text
  pub int_compact : Compacts compact json.int
  pub slots_compact : Compacts compact json.slots
  pub entries_compact : Compacts compact json.entries
  pub info_compact : Compacts compact json.info
  -- A map of raw messages comes back with its keys, its values compacted.
  pub document :
      (m : Assoc Bytes) (b : Bytes)
      → HasKeys (λ k. valid k ≡ true) m
      → json.document.encode m ≡ some b
      → (m' : Assoc Bytes) × (json.document.decode b ≡ some m')
        × ((k : Bytes) → lookup k m' ≡ read_raw compact (lookup k m))

-- The texts of a token, the names of its unknown fields included, are valid UTF-8.
pub record HasTexts (valid : Bytes → Bool) (t : Token) : Type 0 where
  pub keyslots : All (λ s. valid s ≡ true) (elements t.keyslots)
  pub name : valid t.machine.name ≡ true
  pub transport_id : valid t.machine.transport_id ≡ true
  pub unknown : HasKeys (λ k. valid k ≡ true) t.extra
