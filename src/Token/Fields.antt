-- ===== src/Token/Fields.antt =====
-- The document that `MarshalJSON` (mrcore/token.go) writes, field by field.
use synctang.Assoc.{
  Assoc, lookup, insert, insert_all, lookup-insert, lookup-insert_all, HasKeys, HasKeys-insert,
  HasKeys-insert_all, or_else, HasUniqueKeys,
}
use synctang.Prelude.{
  Bool, Bytes, Option, Option-cases, [], arith, bytes_eq, false, inl, inr, none, ok, refl, some,
  true, ◌||◌, ◌∙◌, ◌≡◌,
}
use synctang.Token.Codec.{
  Token, Json, token_type, type_key, version_key, keyslots_key, recipients_key, machine_key,
  is_wire_field, filled, put_token_field, token_fields,
}
use synctang.Token.Laws.{JsonLaws}

-- The raw fields of a token's document, each the encoding of its value, over the unknown ones.
pub record Fields (json : Json) (t : Token) (raw : Assoc Bytes) : Type 0 where
  pub typ : Bytes
  pub version : Bytes
  pub keyslots : Bytes
  pub recipients : Bytes
  pub machine : Bytes
  pub typ_eq : json.text.encode token_type ≡ some typ
  pub version_eq : json.int.encode t.version ≡ some version
  pub keyslots_eq : json.slots.encode (filled t.keyslots) ≡ some keyslots
  pub recipients_eq : json.entries.encode t.recipients ≡ some recipients
  pub machine_eq : json.info.encode t.machine ≡ some machine
  pub raw_eq :
      raw
      ≡ insert machine_key machine (
          insert recipients_key recipients (
            insert keyslots_key keyslots
              (insert version_key version (insert type_key typ (insert_all t.extra [])))))

pub token_fields-Fields :
    (json : Json) (t : Token) (raw : Assoc Bytes) → token_fields json t ≡ ok raw → Fields json t raw
unfolding token_fields put_token_field
token_fields-Fields json t raw h = elim (Option-cases (json.text.encode token_type)) [
  | inl e1 ↦ absurd (ground arith)
  | inr (typ, e1) ↦ elim (Option-cases (json.int.encode t.version)) [
    | inl e2 ↦ absurd (ground arith)
    | inr (version, e2) ↦ elim (Option-cases (json.slots.encode (filled t.keyslots))) [
      | inl e3 ↦ absurd (ground arith)
      | inr (keyslots, e3) ↦ elim (Option-cases (json.entries.encode t.recipients)) [
        | inl e4 ↦ absurd (ground arith)
        | inr (recipients, e4) ↦ elim (Option-cases (json.info.encode t.machine)) [
          | inl e5 ↦ absurd (ground arith)
          | inr (machine, e5) ↦ record {
            typ = typ;
            version = version;
            keyslots = keyslots;
            recipients = recipients;
            machine = machine;
            typ_eq = e1;
            version_eq = e2;
            keyslots_eq = e3;
            recipients_eq = e4;
            machine_eq = e5;
            raw_eq = ground arith;
          }
        ]
      ]
    ]
  ]
]

or_else-none : (o : Option Bytes) → or_else o none ≡ o
or_else-none none = refl
or_else-none (some v) = refl

lookup_past :
    (a b c d e k va vb vc vd ve : Bytes) (m : Assoc Bytes)
    → (bytes_eq a k || bytes_eq b k || bytes_eq c k || bytes_eq d k || bytes_eq e k) ≡ false
    → lookup k (insert e ve (insert d vd (insert c vc (insert b vb (insert a va m))))) ≡ lookup k m
lookup_past a b c d e k va vb vc vd ve m h = simp lookup-insert (ground arith)

module _ (json : Json) (t : Token) (raw : Assoc Bytes) (f : Fields json t raw) where
  pub lookup_typ : lookup type_key raw ≡ some f.typ
  lookup_typ = rw f.raw_eq (simp lookup-insert)

  pub lookup_version : lookup version_key raw ≡ some f.version
  lookup_version = rw f.raw_eq (simp lookup-insert)

  pub lookup_keyslots : lookup keyslots_key raw ≡ some f.keyslots
  lookup_keyslots = rw f.raw_eq (simp lookup-insert)

  pub lookup_recipients : lookup recipients_key raw ≡ some f.recipients
  lookup_recipients = rw f.raw_eq (simp lookup-insert)

  pub lookup_machine : lookup machine_key raw ≡ some f.machine
  lookup_machine = rw f.raw_eq (simp lookup-insert)

  pub lookup_unknown :
      (k : Bytes)
      → HasUniqueKeys t.extra
      → is_wire_field k ≡ false
      → lookup k raw ≡ lookup k t.extra
  unfolding lookup
  lookup_unknown k u h = rw f.raw_eq (
      lookup_past type_key version_key keyslots_key recipients_key machine_key k f.typ f.version
        f.keyslots f.recipients f.machine (insert_all t.extra []) h
      ∙ rw (lookup-insert_all k t.extra [] u) (or_else-none (lookup k t.extra)))

  pub keys-Fields :
      (valid : Bytes → Bool) (compact : Bytes → Bytes)
      → JsonLaws json valid compact
      → HasKeys (λ k. valid k ≡ true) t.extra
      → HasKeys (λ k. valid k ≡ true) raw
  keys-Fields valid compact laws known =
      let P : Bytes → Type 0 = λ k. valid k ≡ true in
      rw f.raw_eq (
        HasKeys-insert P machine_key f.machine _ (laws.ascii machine_key (omega arith)) (
          HasKeys-insert P recipients_key f.recipients _ (laws.ascii recipients_key (omega arith)) (
            HasKeys-insert P keyslots_key f.keyslots _ (laws.ascii keyslots_key (omega arith)) (
              HasKeys-insert P version_key f.version _ (laws.ascii version_key (omega arith)) (
                HasKeys-insert P type_key f.typ _ (laws.ascii type_key (omega arith))
                  (HasKeys-insert_all P t.extra [] known tt))))))
