-- ===== src/Pair/Binding.antt =====
-- What the input of a proof (mrcore/pair.go) says of its parts.
use synctang.Pair.{length_prefix, mac_input, proof_parts, pair_proof}
use synctang.Prelude.{
  ℕ, ◌^◌, ◌<◌, ◌≡◌, refl, ap, List, [], ◌∷◌, ◌++◌, Bytes, All, length, value, take-append,
  drop-append, take, drop, arith, sym, ◌∙◌,
}

abbrev pub IsShort : Bytes → Type 0
IsShort b = length b < 2 ^ 64

value-length_prefix : (n : ℕ) → n < 2 ^ 64 → value (length_prefix n) ≡ n
unfolding length_prefix
value-length_prefix n h = omega arith

-- One part is read back off the front of the input.
mac_input-head :
    (p q : Bytes) (ps qs : Bytes)
    → IsShort p
    → IsShort q
    → length_prefix (length p) ++ (p ++ ps) ≡ length_prefix (length q) ++ (q ++ qs)
    → (p ≡ q) × (ps ≡ qs)
unfolding length_prefix
mac_input-head p q ps qs hp hq e =
    let heads : length_prefix (length p) ≡ length_prefix (length q) = ap (take 8) e in
    let tails : p ++ ps ≡ q ++ qs = ap (drop 8) e in
    let sizes : length p ≡ length q =
      sym (value-length_prefix (length p) hp)
      ∙ ap value heads
      ∙ value-length_prefix (length q) hq in
    (
      sym (take-append p ps) ∙ ap (take (length p)) tails ∙ rw sizes (take-append q qs),
      sym (drop-append p ps) ∙ ap (drop (length p)) tails ∙ rw sizes (drop-append q qs),
    )

-- The MAC's input determines its parts: two lists with as many parts, each below 2^64 bytes long,
-- that give the same input are the same list.
pub mac_input-injective :
    (ps qs : List Bytes)
    → length ps ≡ length qs
    → All IsShort ps
    → All IsShort qs
    → mac_input ps ≡ mac_input qs
    → ps ≡ qs
unfolding mac_input
mac_input-injective [] [] n hp hq e = refl
mac_input-injective [] (q ∷ qs) n hp hq e = absurd (omega arith)
mac_input-injective (p ∷ ps) [] n hp hq e = absurd (omega arith)
mac_input-injective (p ∷ ps) (q ∷ qs) n (hp, hps) (hq, hqs) e =
    let (head, tail) = mac_input-head p q (mac_input ps) (mac_input qs) hp hq e in
    cc (head, mac_input-injective ps qs (omega arith) hps hqs tail)

-- Under a MAC that gives different inputs different values, two equal proofs made with one secret
-- are for the same machine, the same peer, the same public key and the same nonce.
pub pair_proof_binds :
    (hmac : Bytes → Bytes → Bytes)
    → ((k a b : Bytes) → hmac k a ≡ hmac k b → a ≡ b)
    → (secret m m' p p' k k' n n' : Bytes) → All IsShort (proof_parts m p k n)
    → All IsShort (proof_parts m' p' k' n')
    → pair_proof hmac secret m p k n ≡ pair_proof hmac secret m' p' k' n'
    → (m ≡ m') × (p ≡ p') × (k ≡ k') × (n ≡ n')
unfolding pair_proof
pair_proof_binds hmac ideal secret m m' p p' k k' n n' h h' e =
    let same : proof_parts m p k n ≡ proof_parts m' p' k' n' =
      mac_input-injective _ _ refl h h' (ideal secret _ _ e) in
    (cc, cc, cc, cc)
