-- ===== src/Token/Toy.antt =====
-- An encoding that satisfies what is assumed of encoding/json: pieces behind their lengths.
use synctang.Assoc.{Assoc, lookup}
use synctang.Mr1.Crypto.{Recipient}
use synctang.Prelude.{
  ℕ, zero, suc, ◌≤◌, ◌≡◌, refl, Bool, true, map, Option, ap, List, [], ◌∷◌, ◌++◌, Bytes, length,
  length-append, take, drop, take-append, drop-append, none, some, arith,
}
use synctang.Text.{ℤ, pos, negsuc}
use synctang.Token.Codec.{Slice, nil, slice, MachineInfo, Coder, Json}
use synctang.Token.Laws.{Reads, JsonLaws, compacted, read_entry, read_entries, read_raw}

abbrev pack : List Bytes → Bytes
pack [] = []
pack (l ∷ ls) = length l ∷ (l ++ pack ls)

abbrev unpack : ℕ → Bytes → List Bytes
unpack zero b = []
unpack (suc f) [] = []
unpack (suc f) (n ∷ b) = take n b ∷ unpack f (drop n b)

unpack-pack : (ls : List Bytes) (f : ℕ) → length (pack ls) ≤ f → unpack f (pack ls) ≡ ls
unpack-pack [] zero h = refl
unpack-pack [] (suc f) h = refl
unpack-pack (l ∷ ls) zero h = absurd (omega arith)
unpack-pack (l ∷ ls) (suc f) h =
    rw (take-append l (pack ls), drop-append l (pack ls))
      (ap (λ (t : List Bytes). l ∷ t) (unpack-pack ls f (omega (arith, length-append l (pack ls)))))

abbrev unpack_all : Bytes → List Bytes
unpack_all b = unpack (length b) b

unpack_all-pack : (ls : List Bytes) → unpack_all (pack ls) ≡ ls
unpack_all-pack ls = unpack-pack ls (length (pack ls)) (omega arith)

abbrev flat : Assoc Bytes → List Bytes
flat [] = []
flat ((k, v) ∷ m) = k ∷ v ∷ flat m

abbrev pairs : List Bytes → Assoc Bytes
pairs [] = []
pairs (k ∷ []) = []
pairs (k ∷ v ∷ m) = (k, v) ∷ pairs m

pairs-flat : (m : Assoc Bytes) → pairs (flat m) ≡ m
pairs-flat [] = refl
pairs-flat ((k, v) ∷ m) = ap (λ (t : Assoc Bytes). (k, v) ∷ t) (pairs-flat m)

abbrev fields : List Recipient → List Bytes
fields [] = []
fields (r ∷ rs) = r.kid ∷ r.s ∷ r.c ∷ r.ciphertext ∷ r.nonce ∷ r.transport ∷ fields rs

abbrev sixes : List Bytes → List Recipient
sixes (a ∷ b ∷ c ∷ d ∷ e ∷ f ∷ r) =
    record { kid = a; s = b; c = c; ciphertext = d; nonce = e; transport = f } ∷ sixes r
sixes _ = []

sixes-fields : (rs : List Recipient) → sixes (fields rs) ≡ rs
sixes-fields [] = refl
sixes-fields (r ∷ rs) = ap (λ (t : List Recipient). r ∷ t) (sixes-fields rs)

abbrev slots_coder : Coder (Slice Bytes)
slots_coder = record {
  encode = λ s. elim s [ nil ↦ some [] | slice xs ↦ some (1 ∷ pack xs) ];
  decode = λ b. elim b [ [] ↦ some nil | n ∷ r ↦ some (slice (unpack_all r)) ];
}

abbrev entries_coder : Coder (Slice Recipient)
entries_coder = record {
  encode = λ s. elim s [ nil ↦ some [] | slice xs ↦ some (1 ∷ pack (fields xs)) ];
  decode = λ b. elim b [ [] ↦ some nil | n ∷ r ↦ some (slice (sixes (unpack_all r))) ];
}

abbrev int_coder : Coder ℤ
int_coder = record {
  encode = λ v. elim v [ pos n ↦ some (n ∷ []) | negsuc n ↦ some (0 ∷ n ∷ []) ];
  decode =
      λ b. elim b [ [] ↦ none | n ∷ r ↦ elim r [ [] ↦ some (pos n) | m ∷ _ ↦ some (negsuc m) ] ];
}

abbrev info_coder : Coder MachineInfo
info_coder = record {
  encode = λ i. some (length i.name ∷ (i.name ++ i.transport_id));
  decode = λ b. elim b [
    | [] ↦ none
    | n ∷ r ↦ some (record { name = take n r; transport_id = drop n r })
  ];
}

abbrev pub plain : Json
plain = record {
  text = record { encode = λ b. some b; decode = λ b. some b };
  int = int_coder;
  slots = slots_coder;
  entries = entries_coder;
  info = info_coder;
  document = record {
    encode = λ m. some (pack (flat m));
    decode = λ b. some (pairs (unpack_all b));
  };
}

abbrev pub anything : Bytes → Bool
anything s = true

abbrev pub as_is : Bytes → Bytes
as_is s = s

slots-Reads : (s : Slice Bytes) → Reads slots_coder s s
slots-Reads nil b h = ground arith
slots-Reads (slice xs) b h = ground (arith, unpack_all-pack xs)

same_entry : (r : Recipient) → read_entry as_is r ≡ r
same_entry r = ap (λ (t : Bytes). record r { transport = t }) (same_raw r.transport)
  where
    same_raw : (t : Bytes) → compacted as_is t ≡ t
    same_raw [] = refl
    same_raw (c ∷ t) = refl

same_entries : (rs : List Recipient) → map (read_entry as_is) rs ≡ rs
same_entries [] = refl
same_entries (r ∷ rs) = rw (same_entry r) (ap (λ (t : List Recipient). r ∷ t) (same_entries rs))

entries-Reads : (s : Slice Recipient) → Reads entries_coder s (read_entries as_is s)
entries-Reads nil b h = ground arith
entries-Reads (slice xs) b h =
    rw (same_entries xs) (ground (arith, unpack_all-pack (fields xs), sixes-fields xs))

info-Reads : (i : MachineInfo) → Reads info_coder i i
info-Reads i b h =
    ground (arith, take-append i.name i.transport_id, drop-append i.name i.transport_id)

read_raw-as_is : (o : Option Bytes) → o ≡ read_raw as_is o
read_raw-as_is none = refl
read_raw-as_is (some v) = refl

pub plain_laws : JsonLaws plain anything as_is
plain_laws = record {
  ascii = λ s h. refl;
  text = λ s v b h. ground arith;
  int = λ n h b e. ground arith;
  slots = λ s v. slots-Reads s;
  entries = entries-Reads;
  info = λ i v w. info-Reads i;
  text_compact = λ x b h. refl;
  int_compact = λ x b h. refl;
  slots_compact = λ x b h. refl;
  entries_compact = λ x b h. refl;
  info_compact = λ x b h. refl;
  document = λ m b v h.
      (m, ground (arith, unpack_all-pack (flat m), pairs-flat m), λ k. read_raw-as_is (lookup k m));
}
