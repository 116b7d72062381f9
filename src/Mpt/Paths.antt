-- ===== src/Mpt/Paths.antt =====
-- What `decode_compact(rlp.encode(node[0]))` gives: the path of a node with at most one nibble, and a
-- failed assertion on every longer one, whose encoding begins with an RLP prefix byte.
use sting_flashbots.Base.{
  ℕ, suc, ◌+◌, ◌*◌, ◌/◌, ◌%◌, ◌≤◌, ◌<◌, ◌≡◌, refl, ap, ◌∙◌, Bool, List, [], ◌∷◌, length, All, ok,
  err, assertion_error, arith, ◌==◌, Bool-cases, inl, inr, sym,
}
use sting_flashbots.Rlp.{str, Codec, CodecLaws}
use sting_flashbots.Mpt.{compact_flags, decode_compact}
use sting_flashbots.Mpt.Compact.{IsNibble, flag, hex_prefix, decode_compact-hex_prefix}

compact_flags_high : (h : ℕ) → 128 ≤ h → h < 256 → compact_flags (h / 16 % 16) ≡ err assertion_error
unfolding compact_flags
compact_flags_high h lo hi = ground arith

-- An RLP prefix byte is no compact flag.
decode_compact_high :
    (h : ℕ) (t : List ℕ) → 128 ≤ h → h < 256 → decode_compact (h ∷ t) ≡ err assertion_error
unfolding decode_compact
decode_compact_high h t lo hi = ground (arith, compact_flags_high h lo hi)

module _ (c : Codec) (laws : CodecLaws c) where
  pub decode_compact_long :
      (a b : ℕ) (bs : List ℕ)
      → decode_compact (c.rlp_encode (str (a ∷ b ∷ bs))) ≡ err assertion_error
  decode_compact_long a b bs =
      let (h, t, e, lo, hi) = laws.encode_long a b bs in rw e (decode_compact_high h t lo hi)

  byte_path :
      (leaf : Bool) (p : List ℕ)
      → All IsNibble p
      → (b : ℕ) → b < 128
      → hex_prefix leaf p ≡ b ∷ []
      → decode_compact (c.rlp_encode (str (hex_prefix leaf p))) ≡ ok (leaf, p)
  byte_path leaf p h b lt e =
      ap (λ bs. decode_compact (c.rlp_encode (str bs))) e
      ∙ ap decode_compact (laws.encode_byte b lt ∙ sym e)
      ∙ decode_compact-hex_prefix leaf p h

  pub decode_path_empty :
      (leaf : Bool) → decode_compact (c.rlp_encode (str (hex_prefix leaf []))) ≡ ok (leaf, [])
  unfolding hex_prefix
  decode_path_empty leaf = byte_path leaf [] tt (flag leaf * 16) (ground arith) refl

  pub decode_path_one :
      (leaf : Bool) (a : ℕ)
      → IsNibble a
      → decode_compact (c.rlp_encode (str (hex_prefix leaf (a ∷ [])))) ≡ ok (leaf, a ∷ [])
  unfolding hex_prefix
  decode_path_one leaf a h =
      byte_path leaf (a ∷ []) (h, tt) ((flag leaf + 1) * 16 + a) (ground arith) refl

  -- The encoding of a path of two nibbles or more has two bytes or more.
  decode_path_long :
      (leaf : Bool) (a b : ℕ) (p : List ℕ)
      → decode_compact (c.rlp_encode (str (hex_prefix leaf (a ∷ b ∷ p)))) ≡ err assertion_error
  unfolding hex_prefix
  decode_path_long leaf a b [] = decode_compact_long _ _ _
  decode_path_long leaf a b (d ∷ p) = elim (Bool-cases (suc (suc (length p)) % 2 == 0)) [
    | inl e ↦ rw e (decode_compact_long _ _ _)
    | inr e ↦ rw e (decode_compact_long _ _ _)
  ]

  -- Whatever the code reads as the path of a node is that path.
  pub decode_path :
      (leaf : Bool) (p : List ℕ) (r : Bool × List ℕ)
      → All IsNibble p
      → decode_compact (c.rlp_encode (str (hex_prefix leaf p))) ≡ ok r
      → r ≡ (leaf, p)
  decode_path leaf [] r h e = cc (decode_path_empty leaf)
  decode_path leaf (a ∷ []) r h e = cc (decode_path_one leaf a h.0)
  decode_path leaf (a ∷ b ∷ p) r h e = cc (decode_path_long leaf a b p)

  -- A path of at most one nibble is read back.
  pub decode_path_short :
      (leaf : Bool) (p : List ℕ)
      → All IsNibble p
      → length p ≤ 1
      → decode_compact (c.rlp_encode (str (hex_prefix leaf p))) ≡ ok (leaf, p)
  decode_path_short leaf [] h s = decode_path_empty leaf
  decode_path_short leaf (a ∷ []) h s = decode_path_one leaf a h.0
  decode_path_short leaf (a ∷ b ∷ p) h s = absurd (omega arith)
