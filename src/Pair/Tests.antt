-- ===== src/Pair/Tests.antt =====
-- Proofs at a concrete MAC, one that keeps its input, and a pairing with it.
use synctang.Enrol.Tests.{volume, start}
use synctang.Mr1.Tests.{point_two}
use synctang.Pair.{pair_proof}
use synctang.Pair.Binding.{pair_proof_binds}
use synctang.Pair.Authorised.{IsGuarded}
use synctang.Pair.Guarded.{run_pair_once-IsGuarded}
use synctang.Pair.Machine.{Desk, run_pair_once, open_window}
use synctang.Pair.Messages.{PairRequest}
use synctang.Prelude.{◌≡◌, refl, Bytes, codes, arith, replicate, some, none, true, [], ◌∷◌}

abbrev keep : Bytes → Bytes → Bytes
keep k b = b

pair_proof_binds_example :
    (codes "AB" ≡ codes "AB")
    × (codes "CD" ≡ codes "CD")
    × (codes "k" ≡ codes "k")
    × (codes "n" ≡ codes "n")
pair_proof_binds_example =
    pair_proof_binds keep (λ k a b e. e) (codes "s") (codes "AB") (codes "AB") (codes "CD")
      (codes "CD") (codes "k") (codes "k") (codes "n") (codes "n") (omega arith) (omega arith) refl

-- A desk where a phone with the code asks to be enrolled and the operator says yes.
abbrev nonce : Bytes
nonce = replicate 32 9

abbrev asking : PairRequest
asking = record {
  pub_key = point_two;
  name = codes "phone";
  proof = pair_proof keep (codes "s") (codes "M") (codes "C") point_two nonce;
}

abbrev desk : Desk
desk = record {
  system = volume;
  Net = Unit {0};
  hmac = keep;
  machine_id = codes "M";
  machine_name = codes "box";
  device = [];
  existing_passphrase = 1 ∷ [];
  secret = codes "s";
  listen = λ n. (some (codes "C"), n);
  send_challenge = λ c n. (true, n);
  receive_request = λ n. (some asking, n);
  send_result = λ r n. (true, n);
  wait_for_close = λ n. n;
  confirm = some (λ peer_id pub_key n. (true, n));
  confirm_replace = none;
}

run_pair_once-IsGuarded_example : IsGuarded desk (run_pair_once desk (open_window desk start tt)).1
run_pair_once-IsGuarded_example = run_pair_once-IsGuarded desk start tt refl
