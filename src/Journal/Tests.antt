-- ===== src/Journal/Tests.antt =====
-- An entry whose message has a newline and a zero byte.
use synctang.Journal.{Field, leading, encode, field_name, name_char, priority_of}
use synctang.Journal.Handling.{
  Handler, LogRecord, Shared, leaf, group, attr_and, no_attrs, handle, record_fields, handle_lem,
}
use synctang.Text.{pos}
use synctang.Journal.Decode.{decode_fields, decode_fields-encode, all_shortened, field_count}
use synctang.Journal.Names.{Named, field_name_valid}
use synctang.Prelude.{
  ◌+◌, ◌≡◌, refl, Bool, false, none, if◌then◌else◌, List, [], ◌∷◌, Bytes, codes, some, arith,
}

abbrev message : Bytes
message = 65 ∷ 10 ∷ 0 ∷ []

abbrev fields : List Field
fields = record { name = codes "A"; value = codes "x=y" } ∷ []

decode_fields-encode_example :
    decode_fields (3 + field_count fields) (encode 6 (codes "u") message fields)
    ≡ some (all_shortened (leading 6 (codes "u") message fields), [])
decode_fields-encode_example = decode_fields-encode 6 (codes "u") message fields (ground arith)

name_run : field_name (codes "a.b") ≡ some (codes "A_B")
unfolding field_name name_char
name_run = refl

field_name_valid_example : Named (codes "a.b") (field_name (codes "a.b"))
field_name_valid_example = field_name_valid (codes "a.b")

abbrev handler : Handler
handler = record { attrs = leaf (codes "device") (codes "/b") ∷ []; group = codes "net." }

abbrev entry : LogRecord
entry = record {
  level = pos 4;
  message = message;
  attrs = group (codes "g") (attr_and (leaf (codes "k") (codes "v")) no_attrs) ∷ [];
}

abbrev fresh : Shared
fresh = record { failed = false; reports = 0 }

abbrev refuse : Bytes → Bool
refuse b = false

handle_lem_example :
    (data_ : Bytes) × ((handle refuse (codes "u") handler entry fresh).0 ≡ some data_)
    × (decode_fields (3 + field_count (record_fields handler entry)) data_
        ≡ some (
          all_shortened (
              leading
                (priority_of entry.level)
                (codes "u")
                entry.message
                (record_fields handler entry)),
          [],
        ))
    × ((handle refuse (codes "u") handler entry fresh).1.reports ≡ (if refuse data_ then 0 else 1))
    × ((handle refuse (codes "u") handler entry (handle refuse (codes "u") handler entry fresh).1).0
        ≡ (if refuse data_
            then some (
                encode
                  (priority_of entry.level)
                  (codes "u")
                  entry.message
                  (record_fields handler entry))
            else none))
handle_lem_example = handle_lem refuse (codes "u") handler entry entry fresh refl refl
