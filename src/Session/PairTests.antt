-- ===== src/Session/PairTests.antt =====
-- A phone that pairs with a machine whose operator says no.
use synctang.Pair.Messages.{Base32, pair_refused_declined, decode_pairing_secret}
use synctang.Session.Pairer.{PairCodec, PairerOf, PairInput}
use synctang.Session.Pairing.{pair_input}
use synctang.Session.Tests.{recorded_phone}
use synctang.Prelude.{◌≡◌, refl, [], ◌∷◌, ◌++◌, codes, replicate, false, some, none, ok}

abbrev plain_codes : Base32
plain_codes = record {
  encode = λ b. b;
  decode = λ s. some s;
  to_upper = λ s. s;
  trim_space = λ s. s;
}

-- The machine's messages are its nonce and the reason of its refusal.
abbrev declining : PairCodec recorded_phone
declining = record {
  base32 = plain_codes;
  decode_hex = λ s. some s;
  hmac = λ k m. m;
  device_id = λ c. codes "C";
  challenge_of = λ b. some (record { nonce = b; name = [] });
  request_to = λ r. some r.name;
  result_of = λ b. some (record { succeeded = false; error = b });
  operator_expires = λ c w. false;
}

abbrev input : PairInput (Unit {0})
input = record {
  cert = tt;
  machine_id = codes "M";
  self_id = codes "C";
  secret = replicate 16 7;
  public_key = 4 ∷ [];
  name = codes "phone";
  direct_addr = [];
}

abbrev pairer : PairerOf recorded_phone declining
pairer = record {
  cancel = false;
  cancelled = false;
  failure = (0, []);
  progress = record { stage = 0; attempt = 0; route = none; leg_route = []; stages = [] };
  network = record { relay_pool = []; discovery = []; discovery_announce = [] };
  world = ((0 ∷ 0 ∷ 0 ∷ 1 ∷ 9 ∷ []) ++ (0 ∷ 0 ∷ 0 ∷ 32 ∷ pair_refused_declined), 2);
}

input_run :
    pair_input recorded_phone declining
      (codes "M")
      (replicate 16 7)
      (codes "seed")
      (4 ∷ [])
      (codes "phone")
      []
    ≡ ok input
unfolding pair_input decode_pairing_secret
input_run = refl
