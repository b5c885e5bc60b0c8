-- ===== src/Token/RoundTrip.antt =====
-- Decoding what was encoded (mrcore/token.go).
use synctang.Assoc.{Assoc, lookup, keep_keys, lookup-keep_keys, HasUniqueKeys}
use synctang.Prelude.{
  All, Bool, Bool-cases, Bytes, Result-cases, [], ap, arith, false, if◌then◌else◌, inl, inr, none,
  not, ok, refl, some, true, ◌∙◌, ◌≡◌, ◌⊎◌,
}
use synctang.Text.{pos}
use synctang.Token.Codec.{
  Slice, nil, slice, elements, Token, Coder, Json, token_type, type_key, version_key, keyslots_key,
  recipients_key, machine_key, is_wire_field, filled, get_token_field, token_fields, marshal_token,
  token_of_fields, unmarshal_token,
}
use synctang.Token.Fields.{
  Fields, token_fields-Fields, lookup_typ, lookup_version, lookup_keyslots, lookup_recipients,
  lookup_machine, lookup_unknown, keys-Fields,
}
use synctang.Token.Laws.{JsonLaws, HasTexts, read_entries, read_raw}

get_token_field-ok :
    {A : Type 0} (c : Coder A) (raw : Assoc Bytes) (key v : Bytes) (dst x : A)
    → lookup key raw ≡ some v
    → c.decode v ≡ some x
    → get_token_field c raw key dst ≡ ok x
unfolding get_token_field
get_token_field-ok c raw key v dst x h e = ground arith

-- A token as it comes back: the same fields, a nil keyslot list become an empty one, and of the
-- unknown fields those that are not fields of the format. Raw messages are compacted.
pub record ReadsBack (compact : Bytes → Bytes) (t t' : Token) : Type 0 where
  pub version : t'.version ≡ pos 1
  pub keyslots : t'.keyslots ≡ filled t.keyslots
  pub recipients : t'.recipients ≡ read_entries compact t.recipients
  pub machine : t'.machine ≡ t.machine
  pub extra :
      (k : Bytes)
      → lookup k t'.extra ≡ (if is_wire_field k then none else read_raw compact (lookup k t.extra))

filled-All :
    (valid : Bytes → Bool) (s : Slice Bytes)
    → All (λ t. valid t ≡ true) (elements s)
    → All (λ t. valid t ≡ true) (elements (filled s))
filled-All valid nil h = tt
filled-All valid (slice xs) h = h

module _ (json : Json) (valid : Bytes → Bool) (compact : Bytes → Bytes)
    (laws : JsonLaws json valid compact) where
  arrives :
      (raw raw' : Assoc Bytes) (key v : Bytes)
      → ((k : Bytes) → lookup k raw' ≡ read_raw compact (lookup k raw))
      → lookup key raw ≡ some v
      → compact v ≡ v
      → lookup key raw' ≡ some v
  arrives raw raw' key v same found kept = same key ∙ rw found (ap some kept)

  token_of_fields-ReadsBack :
      (t : Token) (raw raw' : Assoc Bytes)
      → t.version ≡ pos 1
      → HasUniqueKeys t.extra
      → HasTexts valid t
      → Fields json t raw
      → ((k : Bytes) → lookup k raw' ≡ read_raw compact (lookup k raw))
      → (t' : Token) × (token_of_fields json raw' ≡ ok t') × ReadsBack compact t t'
  unfolding token_of_fields
  token_of_fields-ReadsBack t raw raw' current unique texts f same = (
    record {
      version = pos 1;
      keyslots = filled t.keyslots;
      recipients = read_entries compact t.recipients;
      machine = t.machine;
      extra = keep_keys (λ k. not (is_wire_field k)) raw';
    },
    rw (
      get_token_field-ok json.text raw' type_key f.typ [] token_type
          (arrives raw raw' type_key f.typ same (lookup_typ json t raw f)
            (laws.text_compact token_type f.typ f.typ_eq))
          (laws.text token_type (laws.ascii token_type (omega arith)) f.typ f.typ_eq),
      get_token_field-ok json.int raw' version_key f.version (pos 0) (pos 1)
          (arrives raw raw' version_key f.version same (lookup_version json t raw f)
            (laws.int_compact t.version f.version f.version_eq))
          (laws.int 1 (omega arith) f.version (rw current at f.version_eq)),
      get_token_field-ok json.slots raw' keyslots_key f.keyslots nil (filled t.keyslots)
          (arrives raw raw' keyslots_key f.keyslots same (lookup_keyslots json t raw f)
            (laws.slots_compact (filled t.keyslots) f.keyslots f.keyslots_eq))
          (laws.slots (filled t.keyslots) (filled-All valid t.keyslots texts.keyslots) f.keyslots
            f.keyslots_eq),
      get_token_field-ok json.entries raw' recipients_key f.recipients nil
          (read_entries compact t.recipients)
          (arrives raw raw' recipients_key f.recipients same (lookup_recipients json t raw f)
            (laws.entries_compact t.recipients f.recipients f.recipients_eq))
          (laws.entries t.recipients f.recipients f.recipients_eq),
      get_token_field-ok json.info raw' machine_key f.machine
          (record { name = []; transport_id = [] }) t.machine
          (arrives raw raw' machine_key f.machine same (lookup_machine json t raw f)
            (laws.info_compact t.machine f.machine f.machine_eq))
          (laws.info t.machine texts.name texts.transport_id f.machine f.machine_eq),
    ),
    record {
      version = refl;
      keyslots = refl;
      recipients = refl;
      machine = refl;
      extra = λ k.
          lookup-keep_keys (λ j. not (is_wire_field j)) k raw'
          ∙ extra_case k (Bool-cases (is_wire_field k));
    },
  )
    where
      extra_case :
          (k : Bytes)
          → (is_wire_field k ≡ true) ⊎ (is_wire_field k ≡ false)
          → (if not (is_wire_field k) then lookup k raw' else none)
            ≡ (if is_wire_field k then none else read_raw compact (lookup k t.extra))
      extra_case k (inl wire) = rw wire
      extra_case k (inr other) =
          rw other
            (same k ∙ ap (λ o. read_raw compact o) (lookup_unknown json t raw f k unique other))

  -- A token of the current version, with distinct unknown fields and texts in valid UTF-8, that encodes
  -- to a document decodes from it to the same token, but that a nil list of keyslots has become an empty
  -- one and that raw messages (the transport data and the unknown fields) are compacted. Unknown fields
  -- survive, but none can displace a field of the format.
  pub unmarshal_token-marshal_token :
      (t : Token) (b : Bytes)
      → t.version ≡ pos 1
      → HasUniqueKeys t.extra
      → HasTexts valid t
      → marshal_token json t ≡ ok b
      → (t' : Token) × (unmarshal_token json b ≡ ok t') × ReadsBack compact t t'
  unfolding marshal_token unmarshal_token
  unmarshal_token-marshal_token t b current unique texts h =
      elim (Result-cases (token_fields json t)) [
        | inr (z, e) ↦ absurd (ground arith)
        | inl (raw, e) ↦
            let f = token_fields-Fields json t raw e in
            let known = keys-Fields json t raw f valid compact laws texts.unknown in
            let (raw', decoded, same) = laws.document raw b known (ground arith) in
            let (t', done, back) =
              token_of_fields-ReadsBack t raw raw' current unique texts f same in
            (t', rw decoded done, back)
      ]
