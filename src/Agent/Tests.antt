-- ===== src/Agent/Tests.antt =====
-- A key holder that declines, two password requests, and two candidate devices.
use synctang.Agent.Ask.{
  AskRequest, AskFile, names_device, select_ask_request, pending_cryptsetup_requests,
  pending_requests, pending_request, parse_ask_file, parse_ask_lines, parse_ask_line, set_field,
  wants_cryptsetup, expired, choose_mr1_device, first_asked_for, is_asked_for, ask_id_device,
}
use synctang.Agent.Exchange.{Setting, Session, run_exchange}
use synctang.Agent.Devices.{Chosen, choose_mr1_device-Chosen}
use synctang.Agent.Requests.{
  Listing, listing_of, NoneNames, pending_cryptsetup_requests-Listing, select_ask_request_names,
}
use synctang.Agent.Verified.{IsVerified, run_exchange-IsVerified}
use synctang.Agent.Peers.{authorized_peers_for, peers_of}
use synctang.Agent.Serve.{IsPeerOf, authorized_peers_for_sound}
use synctang.Enrol.Entries.{transport_device_id, canonical_or_raw, canonical_device_id}
use synctang.Token.Codec.{elements}
use synctang.Enrol.Tests.{volume, token}
use synctang.Prelude.{
  ◌≡◌, ◌≢◌, refl, ◌⊎◌, true, List, [], ◌∷◌, Bytes, ◌++◌, All, codes, none, some, ok, replicate,
}
use synctang.Text.{trim_space, has_prefix, cut, parse_uint}

abbrev setting : Setting
setting = record {
  system = volume;
  World = Unit {0};
  send_hello = λ m w. (true, w);
  send_request = λ m w. (true, w);
  receive = λ w. (some (record { y = []; x_only = []; error = codes "no" }), w);
  send_result = λ r w. w;
  test = λ k w. (true, w);
  deliver = λ k w. (true, w);
  peer_id = codes "A";
  safe_label = λ s. s;
  describe = λ e. [];
}

abbrev session : Session (Unit {0}) Bytes
session = record { world = tt; source = replicate 31 0 ++ (2 ∷ []); log = [] }

run_exchange-IsVerified_example :
    IsVerified
      (run_exchange setting token (codes "box") session).0
      (run_exchange setting token (codes "box") session).1.log
run_exchange-IsVerified_example = run_exchange-IsVerified setting token (codes "box") session refl

abbrev file : AskFile
file = record {
  name = codes "ask.1";
  lines = some (codes "Socket=/s" ∷ codes "Id=cryptsetup:/b" ∷ []);
  clock = none;
}

abbrev request : AskRequest
request = record { socket = codes "/s"; id = codes "cryptsetup:/b"; not_after = 0 }

-- A request whose time is up.
abbrev late_file : AskFile
late_file = record {
  name = codes "ask.2";
  lines = some (codes "Socket=/t" ∷ codes "Id=cryptsetup:/c" ∷ codes "NotAfter=5" ∷ []);
  clock = some 5;
}

pending_run : pending_cryptsetup_requests (late_file ∷ file ∷ []) ≡ ok (request ∷ [])
unfolding pending_cryptsetup_requests pending_requests pending_request parse_ask_file
    parse_ask_lines parse_ask_line set_field wants_cryptsetup expired trim_space has_prefix cut
    parse_uint
pending_run = refl

pending_cryptsetup_requests-Listing_example :
    (reqs : List AskRequest) × Listing (late_file ∷ file ∷ []) reqs
    × (pending_cryptsetup_requests (late_file ∷ file ∷ []) ≡ listing_of reqs)
pending_cryptsetup_requests-Listing_example =
    pending_cryptsetup_requests-Listing (late_file ∷ file ∷ [])

select_ask_request_names_example :
    (r : AskRequest) × (select_ask_request (λ d. d) (request ∷ []) (codes "/b") ≡ some r)
    × ((names_device (λ d. d) (codes "/b") r ≡ true)
        ⊎ NoneNames (λ d. d) (codes "/b") (request ∷ []))
select_ask_request_names_example = select_ask_request_names (λ d. d) request [] (codes "/b")

choose_run :
    choose_mr1_device (λ d. d) (codes "/a" ∷ codes "/b" ∷ []) (codes "cryptsetup:/b" ∷ [])
    ≡ ok (codes "/b")
unfolding choose_mr1_device first_asked_for is_asked_for ask_id_device cut has_prefix
choose_run = refl

choose_mr1_device-Chosen_example :
    Chosen
      (λ d. d)
      (codes "cryptsetup:/b" ∷ [])
      (codes "/a" ∷ codes "/b" ∷ [])
      (choose_mr1_device (λ d. d) (codes "/a" ∷ codes "/b" ∷ []) (codes "cryptsetup:/b" ∷ []))
choose_mr1_device-Chosen_example =
    choose_mr1_device-Chosen (λ d. d) (codes "/a" ∷ codes "/b" ∷ []) (codes "cryptsetup:/b" ∷ [])

peers_run : authorized_peers_for volume token ≡ ok (codes "A" ∷ codes "B" ∷ [])
unfolding authorized_peers_for peers_of transport_device_id canonical_or_raw canonical_device_id
    trim_space
peers_run = refl

authorized_peers_for_sound_example :
    (codes "A" ∷ codes "B" ∷ [] ≢ [])
    × All (IsPeerOf volume (elements token.recipients)) (codes "A" ∷ codes "B" ∷ [])
authorized_peers_for_sound_example =
    authorized_peers_for_sound volume token (codes "A" ∷ codes "B" ∷ []) peers_run
