-- ===== src/Wire/Limits.antt =====
-- What a reader can be made to take, and what cut input gives.
use synctang.Io.{read_full, read_full_short, read_full_enough}
use synctang.Prelude.{
  ℕ, ◌+◌, ◌%◌, ◌^◌, ◌≤◌, ◌<◌, ◌≡◌, refl, [], ◌∷◌, ◌++◌, Bytes, length, length-append,
  take-append-drop, length-take, take-append, take-append_le, ap, ◌∙◌, length-drop, value, ltb, err,
  Bool-cases, Option, Option-cases, if◌then◌else◌, arith, take, drop, ◌⊎◌, inl, inr, sym, ltb→lt,
  ltb→ge,
}
use mathlib.Core.List.{append_assoc, append-nil}
use synctang.Wire.{
  reading_length, reading_body, max_message_size, put_uint32, read_message, read_body,
}
use synctang.Wire.RoundTrip.{frame, value-put_uint32}

-- A reader that takes at most `n` bytes off the front.
abbrev pub Takes : ℕ → Bytes → Bytes → Type 0
Takes n r rest = (used : Bytes) × (r ≡ used ++ rest) × (length used ≤ n)

read_full-Takes : (n : ℕ) (r : Bytes) → Takes n r (read_full n r).1
read_full-Takes n r = elim (Bool-cases (ltb (length r) n)) [
  | inl short ↦
      let h : length r < n = ltb→lt (length r) n short in
      rw (read_full_short n r h) (r, sym (append-nil r), omega arith)
  | inr enough ↦
      let h : n ≤ length r = ltb→ge (length r) n enough in
      rw (read_full_enough n r h)
        (take n r, sym (take-append-drop n r), omega (arith, length-take n r h))
]

Takes-trans : {m n : ℕ} {r s t : Bytes} → Takes m r s → Takes n s t → Takes (m + n) r t
Takes-trans (u, e, a) (v, f, b) =
    (u ++ v, rw (e, f, append_assoc), omega (arith, length-append u v))

widen : {r s : Bytes} → Takes 4 r s → Takes (4 + max_message_size) r s
widen (u, e, a) = (u, e, omega arith)

module _ {V : Type 0} (unmarshal : Bytes → Option V) where
  read_body_rest :
      (len : ℕ) (r : Bytes)
      → ((read_body unmarshal len r).1 ≡ r)
        ⊎ ((len ≤ max_message_size) × ((read_body unmarshal len r).1 ≡ (read_full len r).1))
  unfolding read_body
  read_body_rest len r = ground arith

  read_body-Takes : (len : ℕ) (r : Bytes) → Takes max_message_size r (read_body unmarshal len r).1
  read_body-Takes len r = elim (read_body_rest len r) [
    | inl e ↦ rw e ([], refl, omega arith)
    | inr (h, e) ↦ let (used, same, bound) = read_full-Takes len r in rw e (used, same, omega arith)
  ]

  read_message_head :
      (r : Bytes)
      → ((read_message unmarshal r).1 ≡ (read_full 4 r).1)
        ⊎ ((len : ℕ) × ((read_message unmarshal r).1
              ≡ (read_body unmarshal len (read_full 4 r).1).1))
  unfolding read_message
  read_message_head r = elim (Option-cases (read_full 4 r).0) [
    | inl e ↦ inl (ground arith)
    | inr (b, e) ↦ inr (value b, ground arith)
  ]

  -- However long the input and whatever length it announces, one read takes at most 4 bytes and
  -- 64 KiB off the front of the stream and leaves the rest untouched.
  pub read_message-Takes : (r : Bytes) → Takes (4 + max_message_size) r (read_message unmarshal r).1
  read_message-Takes r = elim (read_message_head r) [
    | inl e ↦ rw e (widen (read_full-Takes 4 r))
    | inr (len, e) ↦
        rw e (Takes-trans (read_full-Takes 4 r) (read_body-Takes len (read_full 4 r).1))
  ]

  -- A stream that ends inside a frame is an error of the length or of the body, never a message: this
  -- holds for every proper prefix of the frame of a body of at most 64 KiB.
  pub read_message_truncated :
      (body front back : Bytes) (x : ℕ)
      → length body ≤ max_message_size
      → frame body ≡ front ++ (x ∷ back)
      → (read_message unmarshal front).0
        ≡ (if ltb (length front) 4 then err reading_length else err reading_body)
  unfolding read_message read_body put_uint32
  read_message_truncated body front back x h e = elim (Bool-cases (ltb (length front) 4)) [
    | inl short ↦ ground (arith, read_full_short 4 front (ltb→lt (length front) 4 short))
    | inr enough ↦
        let lo : 4 ≤ length front = ltb→ge (length front) 4 enough in
        let head : Bytes = put_uint32 (length body % 2 ^ 32) in
        let start : take 4 front ≡ head =
          sym (take-append_le 4 front (x ∷ back) lo)
          ∙ ap (take 4) (sym e)
          ∙ take-append head body in
        let size : length front < 4 + length body =
          omega (arith, ap length e, length-append head body, length-append front (x ∷ back)) in
        let len : value (take 4 front) ≡ length body =
          ap value start ∙ value-put_uint32 (length body % 2 ^ 32) (omega arith) ∙ omega arith in
        ground (
          arith,
          len,
          read_full_enough 4 front lo,
          read_full_short (length body) (drop 4 front) (omega (arith, length-drop 4 front)),
        )
  ]
