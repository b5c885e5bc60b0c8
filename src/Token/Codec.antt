-- ===== src/Token/Codec.antt =====
-- `Token`, `MarshalJSON` and `UnmarshalJSON`.
use synctang.Assoc.{Assoc, lookup, insert, insert_all, keep_keys}
use synctang.Mr1.Crypto.{Recipient}
use synctang.Prelude.{
  Bool, false, not, ◌||◌, ◌==◌, List, [], Bytes, bytes_eq, codes, Result, ok, ◌>>=◌, ◌>>◌, fail_if,
  or_err, Option, none, some,
}
use synctang.Text.{ℤ, pos, negsuc}

-- A slice that may be nil.
pub data Slice (A : Type 0) : Type 0 where
  nil : Slice A
  slice : List A → Slice A

abbrev pub elements : {A : Type 0} → Slice A → List A
elements nil = []
elements (slice xs) = xs

pub record MachineInfo : Type 0 where
  pub name : Bytes
  pub transport_id : Bytes

pub record Token : Type 0 where
  pub version : ℤ
  pub keyslots : Slice Bytes
  pub recipients : Slice Recipient
  pub machine : MachineInfo
  pub extra : Assoc Bytes

pub data TokenError : Type 0 where
  marshal_field unmarshal_field : Bytes → TokenError
  marshal_document unmarshal_document : TokenError
  unsupported_type : Bytes → TokenError
  unsupported_version : ℤ → TokenError

-- encoding/json at one type: `Marshal` and `Unmarshal`, either of which may refuse.
pub record Coder (A : Type 0) : Type 0 where
  pub encode : A → Option Bytes
  pub decode : Bytes → Option A

pub record Json : Type 0 where
  pub text : Coder Bytes
  pub int : Coder ℤ
  pub slots : Coder (Slice Bytes)
  pub entries : Coder (Slice Recipient)
  pub info : Coder MachineInfo
  pub document : Coder (Assoc Bytes)

abbrev pub token_type : Bytes
token_type = codes "mr-1"

abbrev pub current_version : ℤ
current_version = pos 1

abbrev pub type_key : Bytes
type_key = codes "type"

abbrev pub version_key : Bytes
version_key = codes "version"

abbrev pub keyslots_key : Bytes
keyslots_key = codes "keyslots"

abbrev pub recipients_key : Bytes
recipients_key = codes "recipients"

abbrev pub machine_key : Bytes
machine_key = codes "machine"

-- `tokenWireFields[k]`
abbrev pub is_wire_field : Bytes → Bool
is_wire_field k =
    bytes_eq type_key k
    || bytes_eq version_key k
    || bytes_eq keyslots_key k
    || bytes_eq recipients_key k
    || bytes_eq machine_key k

-- `version != currentVersion`
abbrev pub is_current : ℤ → Bool
is_current (pos n) = n == 1
is_current (negsuc n) = false

module _ {A : Type 0} where
  unfoldable pub put_token_field :
      Coder A → Bytes → A → Assoc Bytes → Result TokenError (Assoc Bytes)
  put_token_field coder key v out = do
    b ← or_err (marshal_field key) (coder.encode v)
    ok (insert key b out)

  -- `dst` is left alone, at its zero value, when the document does not carry the field.
  unfoldable pub get_token_field : Coder A → Assoc Bytes → Bytes → A → Result TokenError A
  get_token_field coder raw key dst = elim (lookup key raw) [
    | none ↦ ok dst
    | some v ↦ or_err (unmarshal_field key) (coder.decode v)
  ]

abbrev pub filled : Slice Bytes → Slice Bytes
filled nil = slice []
filled (slice xs) = slice xs

module _ (json : Json) where
  unfoldable pub token_fields : Token → Result TokenError (Assoc Bytes)
  token_fields t = do
    let out = insert_all t.extra []
    o1 ← put_token_field json.text type_key token_type out
    o2 ← put_token_field json.int version_key t.version o1
    o3 ← put_token_field json.slots keyslots_key (filled t.keyslots) o2
    o4 ← put_token_field json.entries recipients_key t.recipients o3
    put_token_field json.info machine_key t.machine o4

  unfoldable pub marshal_token : Token → Result TokenError Bytes
  unfolding token_fields
  marshal_token t = do out ← token_fields t; or_err marshal_document (json.document.encode out)

  -- `UnmarshalJSON` once the document is a map of raw fields.
  unfoldable pub token_of_fields : Assoc Bytes → Result TokenError Token
  token_of_fields raw = do
    typ ← get_token_field json.text raw type_key []
    fail_if (not (bytes_eq typ token_type)) (unsupported_type typ)
    version ← get_token_field json.int raw version_key (pos 0)
    fail_if (not (is_current version)) (unsupported_version version)
    keyslots ← get_token_field json.slots raw keyslots_key nil
    recipients ← get_token_field json.entries raw recipients_key nil
    machine ← get_token_field json.info raw machine_key (record { name = []; transport_id = [] })
    ok (record {
      version = version;
      keyslots = keyslots;
      recipients = recipients;
      machine = machine;
      extra = keep_keys (λ k. not (is_wire_field k)) raw;
    })

  unfoldable pub unmarshal_token : Bytes → Result TokenError Token
  unfolding token_of_fields
  unmarshal_token data_ = do
    raw ← or_err unmarshal_document (json.document.decode data_)
    token_of_fields raw
