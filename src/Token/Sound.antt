-- ===== src/Token/Sound.antt =====
-- What a document that decodes to a token is (mrcore/token.go).
use synctang.Assoc.{Assoc, lookup, keep_keys, lookup-keep_keys}
use synctang.Mr1.Crypto.{Recipient}
use synctang.Prelude.{
  ◌≡◌, refl, ◌∙◌, Bool, true, false, not, [], Bytes, bytes_eq, bytes_eq_iff, ==_iff, ap, fail_if,
  ◌>>◌, >>=-eq-ok, Result, Option-cases, inl, inr, ok, Option, none, some, if◌then◌else◌, arith,
}
use synctang.Text.{ℤ, pos, negsuc}
use synctang.Token.Codec.{
  Slice, nil, MachineInfo, Token, TokenError, Json, token_type, type_key, version_key, keyslots_key,
  recipients_key, machine_key, is_wire_field, is_current, get_token_field, token_of_fields,
  unmarshal_token,
}

is_current-eq : (v : ℤ) → is_current v ≡ true → v ≡ pos 1
is_current-eq (pos n) h = ap pos ((==_iff n 1).0 h)
is_current-eq (negsuc n) h = absurd (cc)

-- What the two tests let through.
guarded :
    {A : Type 0} (b : Bool) (e : TokenError) (k : Result TokenError A) (a : A)
    → (fail_if (not b) e >> k) ≡ ok a
    → (b ≡ true) × (k ≡ ok a)
guarded true e k a h = (refl, h)
guarded false e k a h = absurd (cc)

built :
    (v : ℤ) (slots : Slice Bytes) (entries : Slice Recipient) (info : MachineInfo) (m : Assoc Bytes)
    (t : Token)
    → ◌≡◌ {A = Result TokenError Token}
        (ok (record {
          version = v;
          keyslots = slots;
          recipients = entries;
          machine = info;
          extra = m;
        }))
        (ok t)
    → (t.version ≡ v) × (t.extra ≡ m)
built v slots entries info m t h = (ground arith, ground arith)

record Decoded (json : Json) (raw : Assoc Bytes) (t : Token) : Type 0 where
  typ_read : get_token_field json.text raw type_key [] ≡ ok token_type
  version_read : get_token_field json.int raw version_key (pos 0) ≡ ok (pos 1)
  current : t.version ≡ pos 1
  unknown : t.extra ≡ keep_keys (λ k. not (is_wire_field k)) raw

token_of_fields-Decoded :
    (json : Json) (raw : Assoc Bytes) (t : Token)
    → token_of_fields json raw ≡ ok t
    → Decoded json raw t
unfolding token_of_fields
token_of_fields-Decoded json raw t h =
    let (typ, e1, h1) = >>=-eq-ok (get_token_field json.text raw type_key []) _ h in
    let (mine, h2) = guarded (bytes_eq typ token_type) _ _ t h1 in
    let (version, e2, h3) = >>=-eq-ok (get_token_field json.int raw version_key (pos 0)) _ h2 in
    let (now, h4) = guarded (is_current version) _ _ t h3 in
    let (slots, e3, h5) = >>=-eq-ok (get_token_field json.slots raw keyslots_key nil) _ h4 in
    let (entries, e4, h6) = >>=-eq-ok (get_token_field json.entries raw recipients_key nil) _ h5 in
    let (info, e5, h7) = >>=-eq-ok (get_token_field json.info raw machine_key _) _ h6 in
    let same = is_current-eq version now in
    let (v_eq, extra_eq) = built version slots entries info _ t h7 in
    record {
      typ_read = rw ((bytes_eq_iff typ token_type).0 mine) at e1;
      version_read = rw same at e2;
      current = v_eq ∙ same;
      unknown = extra_eq;
    }

flip : (b : Bool) (o : Option Bytes) → (if not b then o else none) ≡ (if b then none else o)
flip true o = refl
flip false o = refl

-- A document that decodes at all is one whose type is "mr-1" and whose version is 1, and none of the
-- format's own fields is among its unknown ones.
pub unmarshal_token_sound :
    (json : Json) (b : Bytes) (t : Token)
    → unmarshal_token json b ≡ ok t
    → (raw : Assoc Bytes) × (json.document.decode b ≡ some raw)
      × (get_token_field json.text raw type_key [] ≡ ok token_type)
      × (get_token_field json.int raw version_key (pos 0) ≡ ok (pos 1))
      × (t.version ≡ pos 1)
      × ((k : Bytes) → lookup k t.extra ≡ (if is_wire_field k then none else lookup k raw))
unfolding unmarshal_token
unmarshal_token_sound json b t h = elim (Option-cases (json.document.decode b)) [
  | inl e ↦ absurd (ground arith)
  | inr (raw, e) ↦
      let d = token_of_fields-Decoded json raw t (ground arith) in
      (
        raw,
        e,
        d.typ_read,
        d.version_read,
        d.current,
        λ k.
            rw (d.unknown, lookup-keep_keys (λ j. not (is_wire_field j)) k raw)
              (flip (is_wire_field k) _),
      )
]
