-- ===== src/Enrol/Tests.antt =====
-- A volume whose header and token never change, over the group of three points.
use synctang.Enrol.Host.{
  Command, luks_dump, token_export, token_remove, token_import, luks_add_key, luks_kill_slot,
  test_passphrase, System, Host, run_command,
}
use synctang.Enrol.Entries.{
  has_transport_id, canonical_or_raw, keyslot_of, select_recipient, recipients_by_transport_id,
  matching_from, canonical_device_id, transport_device_id, select_among,
}
use synctang.Enrol.Reading.{plan_replace, plan_enrolment, load_token, export_attempts, plan_among}
use synctang.Enrol.Changes.{enrol_once, replace_recipient}
use synctang.Enrol.Kept.{kills_late}
use synctang.Enrol.Order.{replace_recipient-kills_late}
use synctang.Enrol.Selection.{HasId, SingledOut, select_recipient_sound}
use synctang.Enrol.Untouched.{all_reads, enrol_once_only_reads}
use synctang.Group.{p256}
use synctang.Mr1.Crypto.{Recipient}
use synctang.Mr1.Toy.{three, store, rand_bytes}
use synctang.Prelude.{
  ◌≡◌, refl, true, [], ◌∷◌, ◌++◌, Bytes, codes, Option, some, ok, err, replicate, arith,
}
use synctang.Text.{
  pos, split, trim_space, has_prefix, cut, atoi, digits_value, is_space, trim_left, trim_right,
  uint_value,
}
use synctang.Assoc.{lookup, insert, insert_all, keep_keys}
use synctang.LuksDump.{
  token_ids_of_type, entry_ids, parse_section, section_loop, entry_of, is_heading, of_type,
}
use synctang.Token.Codec.{
  Token, slice, elements, marshal_token, unmarshal_token, get_token_field, put_token_field,
  token_fields, token_of_fields,
}
use synctang.Token.Toy.{plain}

abbrev holder : Recipient
holder = record { kid = 9 ∷ []; s = []; c = []; ciphertext = []; nonce = []; transport = codes "A" }

abbrev other : Recipient
other = record { kid = 8 ∷ []; s = []; c = []; ciphertext = []; nonce = []; transport = codes "B" }

abbrev pub token : Token
token = record {
  version = pos 1;
  keyslots = slice (codes "0" ∷ codes "3" ∷ []);
  recipients = slice (holder ∷ other ∷ []);
  machine = record { name = []; transport_id = [] };
  extra = [];
}

abbrev token_text : Bytes
token_text = elim (marshal_token plain token) [ ok text ↦ text | err e ↦ [] ]

abbrev header : Bytes
header =
    codes "Keyslots:"
    ++ (10 ∷ codes "  0: luks2" ++ (10 ∷ codes "Tokens:" ++ (10 ∷ codes "  0: mr-1")))

abbrev answer : Command → Option Bytes
answer (luks_dump d) = some header
answer (token_export i d) = some token_text
answer (token_remove i d) = some []
answer (token_import i d t) = some []
answer (luks_add_key d p k n) = some []
answer (luks_kill_slot d n p) = some []
answer (test_passphrase d p) = some []

abbrev pub volume : System
volume = record {
  World = Unit {0};
  run = λ c w. (answer c, w);
  device_id_from_string = λ s. some s;
  read_device_id = λ b. some b;
  write_device_id = λ s. some s;
  json = plain;
  group = p256 three;
  crypto = store;
  rand_read = rand_bytes;
}

abbrev pub start : Host (Unit {0}) Bytes
start = record {
  world = tt;
  source = replicate 32 9 ++ (replicate 31 0 ++ (2 ∷ replicate 12 5));
  log = [];
}

replace_recipient-kills_late_example :
    kills_late
      (replace_recipient volume [] (1 ∷ []) (4 ∷ []) (codes "A") (codes "A") [] start).1.log
    ≡ true
replace_recipient-kills_late_example =
    replace_recipient-kills_late volume [] (1 ∷ []) (4 ∷ []) (codes "A") (codes "A") [] start refl

select_run : select_recipient volume token (codes "B") [] ≡ ok 1
unfolding select_recipient select_among recipients_by_transport_id has_transport_id canonical_or_raw
    transport_device_id canonical_device_id trim_space
select_run = refl

select_recipient_sound_example :
    HasId volume (canonical_or_raw volume (codes "B")) (elements token.recipients) 1
    × SingledOut volume token (codes "B") [] 1
select_recipient_sound_example = select_recipient_sound volume token (codes "B") [] 1 select_run

plan_run :
    (plan_enrolment volume [] (7 ∷ []) (codes "A") start).0
    ≡ ok (plan_replace (record { keyslot = codes "0"; kid = 9 ∷ [] }))
unfolding plan_enrolment run_command load_token export_attempts plan_among token_ids_of_type
    entry_ids parse_section section_loop split trim_space entry_of has_prefix cut atoi
    unmarshal_token get_token_field lookup marshal_token put_token_field insert insert_all keep_keys
    canonical_device_id canonical_or_raw has_transport_id keyslot_of matching_from
    recipients_by_transport_id transport_device_id is_heading of_type digits_value is_space
    trim_left trim_right uint_value token_fields token_of_fields
plan_run = refl

enrol_once_only_reads_example :
    all_reads (enrol_once volume [] (1 ∷ []) (7 ∷ []) [] [] (codes "A") start).1.log ≡ true
enrol_once_only_reads_example =
    enrol_once_only_reads volume [] (1 ∷ []) (7 ∷ []) [] [] (codes "A")
      (plan_replace (record { keyslot = codes "0"; kid = 9 ∷ [] })) start refl refl plan_run
      (ground arith)
