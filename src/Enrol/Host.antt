-- ===== src/Enrol/Host.antt =====
-- The runs of cryptsetup that the program makes, and the state that they change. cryptsetup itself
-- is a parameter: what a run answers, and the volume that it leaves.
use synctang.Action.{Action}
use synctang.Mr1.Crypto.{Mr1Error, Crypto}
use synctang.Group.{Group}
use synctang.Prelude.{ℕ, Bool, true, false, List, ◌∷◌, Bytes, Option, none, some, or_err, map_err}
use synctang.Text.{ℤ}
use synctang.Token.Codec.{TokenError, Json}

-- One run, with what it reads from its standard input and from the descriptors of its secrets.
pub data Command : Type 0 where
  luks_dump : Bytes → Command
  -- the token id and the device
  token_export token_remove : ℤ → Bytes → Command
  -- the token id if one is named, the device and the token
  token_import : Option ℤ → Bytes → Bytes → Command
  -- the device, its passphrase, the new key and the new key's slot
  luks_add_key : Bytes → Bytes → Bytes → ℕ → Command
  -- the device, the slot and the passphrase
  luks_kill_slot : Bytes → Bytes → Bytes → Command
  -- `open --test-passphrase`: the device and the passphrase
  test_passphrase : Bytes → Bytes → Command

-- `nothing`: the run failed.
pub record System : Type 1 where
  pub World : Type 0
  pub run : Command → World → Option Bytes × World
  -- github.com/syncthing/syncthing/lib/protocol: `DeviceIDFromString`, then `String`
  pub device_id_from_string : Bytes → Option Bytes
  -- encoding/json at the struct with the one field "device_id"
  pub read_device_id : Bytes → Option Bytes
  pub write_device_id : Bytes → Option Bytes
  -- the encoding of the token, the group, the primitives and the source of randomness
  pub json : Json
  pub group : Group
  pub crypto : Crypto
  pub rand_read : ℕ → group.Source → Option Bytes × group.Source

-- Every run so far, the latest first, with its success.
abbrev pub Log : Type 0
Log = List (Command × Bool)

pub record Host (World Source : Type 0) : Type 0 where
  pub world : World
  pub source : Source
  pub log : Log

pub data EnrolError : Type 0 where
  reading_header : EnrolError
  reading_token : EnrolError
  decoding_token encoding_token : TokenError → EnrolError
  choosing_keyslot : EnrolError
  enrol_failed : Mr1Error → EnrolError
  bad_transport_id : EnrolError
  adding_keyslot destroying_keyslot : EnrolError
  removing_token writing_token : EnrolError
  enrolled_more_than_once : EnrolError
  -- the keyslot of the other key
  different_key : Bytes → EnrolError
  no_recipients : EnrolError
  list_lengths : ℕ → ℕ → EnrolError
  no_such_id no_such_keyslot : EnrolError
  old_key_missing : Bytes → EnrolError
  enrolling_replacement rereading_token : EnrolError → EnrolError
  revoking_old_key : Bytes → EnrolError → EnrolError
  -- an index past the end of a list: a run-time panic
  index_panic : EnrolError

abbrev pub is_some : {A : Type 0} → Option A → Bool
is_some none = false
is_some (some a) = true

-- A call that runs commands and draws random bytes.
abbrev pub Run : System → Type 0 → Type 0
Run sys A = Action (Host sys.World sys.group.Source) EnrolError A

-- `runCommand` and `runCommandWithSecrets`, the failure under the caller's name.
unfoldable pub run_command : (sys : System) → EnrolError → Command → Run sys Bytes
run_command sys e c h =
    let (r, w) = sys.run c h.world in
    (or_err e r, record { world = w; source = h.source; log = (c, is_some r) ∷ h.log })

-- A call that only draws random bytes.
unfoldable pub draw : (sys : System) → {A : Type 0} → Action sys.group.Source Mr1Error A → Run sys A
draw sys m h =
    let (r, s) = m h.source in
    (map_err enrol_failed r, record { world = h.world; source = s; log = h.log })
