-- ===== src/Wire/RoundTrip.antt =====
-- What `read_message` makes of what `write_message` wrote.
use synctang.Io.{buffer, read_full-append}
use synctang.Prelude.{
  ℕ, ◌%◌, ◌^◌, ◌≤◌, ◌<◌, ◌≡◌, refl, ◌++◌, Bytes, length, value, ok, Option, some, arith,
}
use mathlib.Core.List.{append_assoc}
use synctang.Wire.{max_message_size, put_uint32, write_message, read_message, read_body}

abbrev pub frame : Bytes → Bytes
frame body = put_uint32 (length body % 2 ^ 32) ++ body

pub length-put_uint32 : (n : ℕ) → length (put_uint32 n) ≡ 4
unfolding put_uint32
length-put_uint32 n = refl

pub value-put_uint32 : (n : ℕ) → n < 2 ^ 32 → value (put_uint32 n) ≡ n
unfolding put_uint32
value-put_uint32 n h = omega arith

module _ {V : Type 0} (marshal : V → Option Bytes) (unmarshal : Bytes → Option V) where
  write_message-frame :
      (v : V) (body s : Bytes)
      → marshal v ≡ some body
      → length body ≤ max_message_size
      → write_message marshal buffer v s ≡ (ok tt, s ++ frame body)
  unfolding write_message
  write_message-frame v body s m h =
      ground (arith, append_assoc s (put_uint32 (length body % 2 ^ 32)) body)

  read_body-append :
      (v : V) (body rest : Bytes)
      → unmarshal body ≡ some v
      → length body ≤ max_message_size
      → read_body unmarshal (length body) (body ++ rest) ≡ (ok v, rest)
  unfolding read_body
  read_body-append v body rest u h = ground (arith, read_full-append body rest)

  read_message-frame :
      (v : V) (body rest : Bytes)
      → unmarshal body ≡ some v
      → length body ≤ max_message_size
      → read_message unmarshal (frame body ++ rest) ≡ (ok v, rest)
  unfolding read_message
  read_message-frame v body rest u h =
      let head : Bytes = put_uint32 (length body % 2 ^ 32) in
      let same : length body % 2 ^ 32 ≡ length body = omega arith in
      rw (append_assoc head body rest) (
        ground (
          arith,
          same,
          read_full-append head (body ++ rest),
          length-put_uint32 (length body % 2 ^ 32),
          value-put_uint32 (length body % 2 ^ 32) (omega arith),
          read_body-append v body rest u h,
        ))

  -- A message whose encoding is at most 64 KiB, written to a buffer after whatever it holds, adds one
  -- frame; reading from the front of that frame gives the message back and leaves all that follows.
  pub read_message-write_message :
      (v : V) (body s rest : Bytes)
      → marshal v ≡ some body
      → unmarshal body ≡ some v
      → length body ≤ max_message_size
      → (out : Bytes) × (write_message marshal buffer v s ≡ (ok tt, s ++ out))
        × (read_message unmarshal (out ++ rest) ≡ (ok v, rest))
  read_message-write_message v body s rest m u h =
      (frame body, write_message-frame v body s m h, read_message-frame v body rest u h)
