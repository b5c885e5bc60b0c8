-- ===== src/Token/Tests.antt =====
-- A token with no keyslot list, an unknown field, and one that is spelled like a field of the format.
use synctang.Assoc.{Assoc, lookup, insert, insert_all, keep_keys}
use synctang.Prelude.{◌≡◌, refl, [], ◌∷◌, Bytes, codes, ok, some, none, if◌then◌else◌}
use synctang.Text.{pos}
use synctang.Token.Codec.{
  Token, nil, slice, marshal_token, unmarshal_token, put_token_field, get_token_field, type_key,
  version_key, token_type, is_wire_field,
}
use synctang.Token.Laws.{HasTexts}
use synctang.Token.RoundTrip.{ReadsBack, unmarshal_token-marshal_token}
use synctang.Token.Sound.{unmarshal_token_sound}
use synctang.Token.Toy.{plain, plain_laws, anything, as_is}

abbrev token : Token
token = record {
  version = pos 1;
  keyslots = nil;
  recipients = slice [];
  machine = record { name = codes "box"; transport_id = codes "ID" };
  extra = (codes "type", codes "x") ∷ (codes "z", codes "9") ∷ [];
}

abbrev document : Bytes
document =
    4 ∷ 116 ∷ 121 ∷ 112 ∷ 101 ∷ 4 ∷ 109 ∷ 114 ∷ 45 ∷ 49 ∷ 1 ∷ 122 ∷ 1 ∷ 57 ∷ 7 ∷ 118 ∷ 101 ∷ 114
    ∷ 115 ∷ 105 ∷ 111 ∷ 110 ∷ 1 ∷ 1 ∷ 8 ∷ 107 ∷ 101 ∷ 121 ∷ 115 ∷ 108 ∷ 111 ∷ 116 ∷ 115 ∷ 1 ∷ 1 ∷ 10
    ∷ 114 ∷ 101 ∷ 99 ∷ 105 ∷ 112 ∷ 105 ∷ 101 ∷ 110 ∷ 116 ∷ 115 ∷ 1 ∷ 1 ∷ 7 ∷ 109 ∷ 97 ∷ 99 ∷ 104
    ∷ 105 ∷ 110 ∷ 101 ∷ 6 ∷ 3 ∷ 98 ∷ 111 ∷ 120 ∷ 73 ∷ 68 ∷ []

marshal_run : marshal_token plain token ≡ ok document
unfolding marshal_token put_token_field insert insert_all
marshal_run = refl

token_texts : HasTexts anything token
token_texts = record {
  keyslots = tt;
  name = refl;
  transport_id = refl;
  unknown = (refl, (refl, tt));
}

unmarshal_token-marshal_token_example :
    (t' : Token) × (unmarshal_token plain document ≡ ok t') × ReadsBack as_is token t'
unfolding lookup
unmarshal_token-marshal_token_example =
    unmarshal_token-marshal_token plain anything as_is plain_laws token document refl
      (refl, (refl, tt)) token_texts marshal_run

abbrev read_token : Token
read_token = record token { keyslots = slice []; extra = (codes "z", codes "9") ∷ [] }

unmarshal_run : unmarshal_token plain document ≡ ok read_token
unfolding unmarshal_token get_token_field lookup keep_keys
unmarshal_run = refl

unmarshal_token_sound_example :
    (raw : Assoc Bytes) × (plain.document.decode document ≡ some raw)
    × (get_token_field plain.text raw type_key [] ≡ ok token_type)
    × (get_token_field plain.int raw version_key (pos 0) ≡ ok (pos 1))
    × (read_token.version ≡ pos 1)
    × ((k : Bytes) → lookup k read_token.extra ≡ (if is_wire_field k then none else lookup k raw))
unmarshal_token_sound_example = unmarshal_token_sound plain document read_token unmarshal_run
