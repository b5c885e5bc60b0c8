-- ===== src/Enrol/Entries.antt =====
-- The entries of a token: transport ids, the keyslot of an entry, the entries of one id, the choice of
-- one of them, and the key material of a secret.
use synctang.Enrol.Host.{System, EnrolError, enrolled_more_than_once, no_such_id, no_such_keyslot}
use synctang.Mr1.Crypto.{Recipient}
use synctang.Prelude.{
  ℕ, ◌+◌, ◌/◌, ◌%◌, Bool, true, false, List, [], ◌∷◌, Bytes, bytes_eq, codes, get_elem?,
  if◌then◌else◌, ltb, Option, none, some, Result, ok, err,
}
use synctang.Text.{trim_space}
use synctang.Token.Codec.{Token, elements}

abbrev pub hex_digit : ℕ → ℕ
hex_digit d = if ltb d 10 then b'0' + d else 87 + d

-- `luksKeyMaterial`: lower-case hexadecimal.
unfoldable pub luks_key_material : Bytes → Bytes
luks_key_material [] = []
luks_key_material (b ∷ p) = hex_digit (b / 16) ∷ hex_digit (b % 16) ∷ luks_key_material p

-- `bytes_eq s ""`
abbrev pub is_empty : Bytes → Bool
is_empty [] = true
is_empty (c ∷ s) = false

module _ (sys : System) where
  unfoldable pub canonical_device_id : Bytes → Option Bytes
  canonical_device_id s =
      if is_empty (trim_space s) then none else sys.device_id_from_string (trim_space s)

  unfoldable pub canonical_or_raw : Bytes → Bytes
  unfolding canonical_device_id
  canonical_or_raw s = elim (canonical_device_id s) [ none ↦ s | some c ↦ c ]

  unfoldable pub recipient_transport_blob : Bytes → Option Bytes
  unfolding canonical_device_id
  recipient_transport_blob device_id = elim (canonical_device_id device_id) [
    | none ↦ none
    | some id ↦ sys.write_device_id id
  ]

  unfoldable pub transport_device_id : Recipient → Option Bytes
  transport_device_id r =
      if is_empty r.transport then none else elim (sys.read_device_id r.transport) [
        | none ↦ none
        | some id ↦ if is_empty id then none else some id
      ]

  -- The test of the loop of `recipientsByTransportID`.
  unfoldable pub has_transport_id : Bytes → Recipient → Bool
  unfolding canonical_or_raw transport_device_id
  has_transport_id want r = elim (transport_device_id r) [
    | none ↦ false
    | some got ↦ bytes_eq (canonical_or_raw got) want
  ]

  -- The loop, from index `i` on.
  unfoldable pub matching_from : Bytes → ℕ → List Recipient → List ℕ
  unfolding has_transport_id
  matching_from want i [] = []
  matching_from want i (r ∷ rs) =
      let later = matching_from want (i + 1) rs in
      if has_transport_id want r then i ∷ later else later

  unfoldable pub recipients_by_transport_id : Token → Bytes → List ℕ
  unfolding matching_from
  recipients_by_transport_id tok id =
      matching_from (canonical_or_raw id) 0 (elements tok.recipients)

unfoldable pub keyslot_of : Token → ℕ → Bytes
keyslot_of tok idx = elim (get_elem? (elements tok.keyslots) idx) [
  | none ↦ codes "?"
  | some slot ↦ slot
]

-- The loop of `selectRecipient` over the entries of the id.
unfoldable pub entry_in_keyslot : Token → Bytes → List ℕ → Option ℕ
unfolding keyslot_of
entry_in_keyslot tok keyslot [] = none
entry_in_keyslot tok keyslot (i ∷ is_) =
    let later = entry_in_keyslot tok keyslot is_ in
    if bytes_eq (keyslot_of tok i) keyslot then some i else later

-- `selectRecipient` once the entries of the id are known.
unfoldable pub select_among : Token → Bytes → List ℕ → Result EnrolError ℕ
unfolding entry_in_keyslot
select_among tok keyslot [] = err no_such_id
select_among tok keyslot (i ∷ is_) =
    if is_empty keyslot
    then elim is_ [ [] ↦ ok i | j ∷ js ↦ err enrolled_more_than_once ]
    else elim (entry_in_keyslot tok keyslot (i ∷ is_)) [
      | none ↦ err no_such_keyslot
      | some n ↦ ok n
    ]

unfoldable pub select_recipient : System → Token → Bytes → Bytes → Result EnrolError ℕ
unfolding select_among recipients_by_transport_id
select_recipient sys tok id keyslot =
    select_among tok keyslot (recipients_by_transport_id sys tok id)

unfoldable pub recipient_index_by_transport_id : System → Token → Bytes → Result EnrolError ℕ
unfolding select_recipient
recipient_index_by_transport_id sys tok id = select_recipient sys tok id []
