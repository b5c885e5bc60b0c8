-- ===== src/Wire.antt =====
-- The message framing of mrcore/wire.go: a 4-byte big-endian length, then the JSON encoding. The
-- JSON codec is a parameter: `marshal` and `unmarshal` of one message type `V`.
pub mod RoundTrip
pub mod Limits
mod Tests
use synctang.Io.{read_full, Writer}
use synctang.Prelude.{
  ℕ, Bool, suc, ◌*◌, ◌/◌, ◌%◌, ◌^◌, [], ◌∷◌, Bytes, length, value, ltb, if◌then◌else◌, Result, ok,
  err, Option, none, some,
}

abbrev pub max_message_size : ℕ
max_message_size = 64 * 1024

pub record RecoverRequest : Type 0 where
  pub kid : Bytes
  pub x : Bytes

pub record RecoverResponse : Type 0 where
  pub y : Bytes
  pub x_only : Bytes
  pub error : Bytes

pub record RecoverResult : Type 0 where
  pub succeeded : Bool
  pub error : Bytes

pub record Hello : Type 0 where
  pub name : Bytes

pub data WireError : Type 0 where
  encoding : WireError
  too_large : ℕ → WireError
  writing_length writing_body reading_length reading_body decoding : WireError

-- `binary.BigEndian.PutUint32`
unfoldable pub put_uint32 : ℕ → Bytes
put_uint32 n = n / 2 ^ 24 % 256 ∷ n / 2 ^ 16 % 256 ∷ n / 2 ^ 8 % 256 ∷ n % 256 ∷ []

-- The two writes of `WriteMessage`, each with its error.
unfoldable pub write_parts :
    (w : Writer) → Bytes → Bytes → w.State → Result WireError (Unit {0}) × w.State
write_parts w len_buf body s =
    let (first, s1) = w.write len_buf s in
    let (second, s2) = w.write body s1 in
    elim first [
      | none ↦ (err writing_length, s1)
      | some _ ↦ elim second [ none ↦ (err writing_body, s2) | some _ ↦ (ok tt, s2) ]
    ]

module _ {V : Type 0} where
  unfoldable pub write_message :
      (V → Option Bytes) → (w : Writer) → V → w.State → Result WireError (Unit {0}) × w.State
  unfolding write_parts
  write_message marshal w v s = elim (marshal v) [
    | none ↦ (err encoding, s)
    | some body ↦
        if ltb max_message_size (length body)
        then (err (too_large (length body)), s)
        else write_parts w (put_uint32 (length body % 2 ^ 32)) body s
  ]

  -- The second half of `ReadMessage`, once the length is known.
  unfoldable pub read_body : (Bytes → Option V) → ℕ → Bytes → Result WireError V × Bytes
  read_body unmarshal len r =
      let (body, rest) = read_full len r in
      if ltb max_message_size len then (err (too_large len), r) else elim body [
        | none ↦ (err reading_body, rest)
        | some b ↦ elim (unmarshal b) [ none ↦ (err decoding, rest) | some v ↦ (ok v, rest) ]
      ]

  unfoldable pub read_message : (Bytes → Option V) → Bytes → Result WireError V × Bytes
  unfolding read_body
  read_message unmarshal r =
      let (head, rest) = read_full 4 r in
      elim head [
        | none ↦ (err reading_length, rest)
        | some len_buf ↦ read_body unmarshal (value len_buf) rest
      ]
