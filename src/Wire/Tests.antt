-- ===== src/Wire/Tests.antt =====
-- One message of three bytes, encoded as itself.
use synctang.Io.{buffer}
use synctang.Prelude.{◌+◌, ◌≡◌, refl, [], ◌∷◌, ◌++◌, Bytes, ok, Option, some, arith}
use synctang.Wire.{max_message_size, write_message, read_message}
use synctang.Wire.RoundTrip.{read_message-write_message}
use synctang.Wire.Limits.{Takes, read_message-Takes}

abbrev same : Bytes → Option Bytes
same b = some b

abbrev message : Bytes
message = 7 ∷ 8 ∷ 9 ∷ []

read_message-write_message_example :
    (out : Bytes) × (write_message same buffer message (1 ∷ []) ≡ (ok tt, (1 ∷ []) ++ out))
    × (read_message same (out ++ (5 ∷ [])) ≡ (ok message, 5 ∷ []))
read_message-write_message_example =
    read_message-write_message same same message message (1 ∷ []) (5 ∷ []) refl refl (omega arith)

read_message-Takes_example :
    Takes
      (4 + max_message_size)
      (0 ∷ 9 ∷ 0 ∷ 0 ∷ 5 ∷ [])
      (read_message same (0 ∷ 9 ∷ 0 ∷ 0 ∷ 5 ∷ [])).1
read_message-Takes_example = read_message-Takes same (0 ∷ 9 ∷ 0 ∷ 0 ∷ 5 ∷ [])

abbrev front : Bytes
front = 0 ∷ 0 ∷ 0 ∷ 3 ∷ 7 ∷ []
