-- ===== src/Rlp.antt =====
-- RLP items as the rlp package decodes them, and what the program takes from packages: `rlp` and the
-- `keccak` of eth_hash. Both are parameters. (searcher/src/enclave/lib/mkp/proveth.py calls them.)
use sting_flashbots.Base.{
  ℕ, zero, suc, ◌≤◌, ◌<◌, ◌≡◌, Option, none, some, List, [], ◌∷◌, Result, length,
}
use native.Mathlib.Decide.{ℕ_discrete}

-- A decoded item is a byte string or a list of items.
mutual
  pub data Item : Type 0 where
    str : List ℕ → Item
    seq : Items → Item

  pub data Items : Type 0 where
    nil : Items
    cons : Item → Items → Items

abbrev pub len_items : Items → ℕ
len_items nil = 0
len_items (cons x xs) = suc (len_items xs)

-- `len` of an item: of its bytes, or of its list.
abbrev pub len_item : Item → ℕ
len_item (str bs) = length bs
len_item (seq xs) = len_items xs

abbrev pub get_item : Items → ℕ → Option Item
get_item nil i = none
get_item (cons x xs) zero = some x
get_item (cons x xs) (suc i) = get_item xs i

abbrev pub items_of : List Item → Items
items_of [] = nil
items_of (x ∷ xs) = cons x (items_of xs)

-- `rlp.encode`, `rlp.decode` (which raises on malformed input) and `keccak`.
pub record Codec : Type 0 where
  pub rlp_encode : Item → List ℕ
  pub rlp_decode : List ℕ → Result Item
  pub keccak : List ℕ → List ℕ

-- The documented encoding of byte strings: a single byte below 0x80 is its own encoding, and any
-- other string starts with a byte from 0x80 on. A keccak digest is not empty.
pub record CodecLaws (c : Codec) : Type 0 where
  pub encode_byte : (b : ℕ) → b < 128 → c.rlp_encode (str (b ∷ [])) ≡ b ∷ []
  pub encode_empty :
      (h : ℕ) × (t : List ℕ) × (c.rlp_encode (str []) ≡ h ∷ t) × (128 ≤ h) × (h < 256)
  pub encode_high :
      (b : ℕ)
      → 128 ≤ b
      → (h : ℕ) × (t : List ℕ) × (c.rlp_encode (str (b ∷ [])) ≡ h ∷ t) × (128 ≤ h) × (h < 256)
  pub encode_long :
      (a b : ℕ) (bs : List ℕ)
      → (h : ℕ) × (t : List ℕ) × (c.rlp_encode (str (a ∷ b ∷ bs)) ≡ h ∷ t) × (128 ≤ h) × (h < 256)
  pub digest_length : (bs : List ℕ) → length (c.keccak bs) ≡ 32

pub Items-discrete : Discrete Items
Items-discrete = hlevel ℕ_discrete
