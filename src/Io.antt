-- ===== src/Io.antt =====
-- Go's io interfaces as the program uses them: a reader is the bytes that it still holds, a writer
-- is a state with an operation that may fail.
use synctang.Prelude.{
  ℕ, ◌≤◌, ◌<◌, ◌≡◌, [], ◌++◌, Bytes, length, take, drop, ltb, if◌then◌else◌, Option, none, some,
  arith, length-append, take-append, drop-append,
}

-- `io.ReadFull`: a short read takes what there is and is an error.
unfoldable pub read_full : ℕ → Bytes → Option Bytes × Bytes
read_full n r = if ltb (length r) n then (none, []) else (some (take n r), drop n r)

-- `io.Writer`
pub record Writer : Type 1 where
  pub State : Type 0
  pub write : Bytes → State → Option (Unit {0}) × State

-- A `bytes.Buffer`, which keeps everything that is written.
abbrev pub buffer : Writer
buffer = record { State = Bytes; write = λ b s. (some tt, s ++ b) }

pub read_full_short : (n : ℕ) (r : Bytes) → length r < n → read_full n r ≡ (none, [])
unfolding read_full
read_full_short n r h = ground arith

pub read_full_enough :
    (n : ℕ) (r : Bytes) → n ≤ length r → read_full n r ≡ (some (take n r), drop n r)
unfolding read_full
read_full_enough n r h = ground arith

pub read_full-append : (xs ys : Bytes) → read_full (length xs) (xs ++ ys) ≡ (some xs, ys)
read_full-append xs ys = rw (
  read_full_enough (length xs) (xs ++ ys) (omega (arith, length-append xs ys)),
  take-append xs ys,
  drop-append xs ys,
)
