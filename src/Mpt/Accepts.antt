-- ===== src/Mpt/Accepts.antt =====
-- The rounds of `verify_mpt_proof` that accept a node of the trie.
use sting_flashbots.Base.{
  ℕ, ◌+◌, ◌≤◌, ◌<◌, ◌≡◌, ap, ◌∙◌, Bool, true, false, List, [], ◌∷◌, ◌++◌, length, drop, drop_all,
  length-drop, get_elem?, All, ok, arith, sym, some, ◌≢◌, append-nil, bytes_eq_refl, subst,
}
use sting_flashbots.Rlp.{Item, Items, str, nil, cons, get_item, Codec, CodecLaws}
use sting_flashbots.Mpt.{
  node_round, short_round, branch_round, is_last, verify_from, digest_eq, done, next,
  shared_prefix_length,
}
use sting_flashbots.Mpt.Compact.{IsNibble, hex_prefix}
use sting_flashbots.Mpt.Prefix.{mismatch, mismatch-append, get_elem?-drop_cons}
use sting_flashbots.Mpt.Paths.{decode_path_short}
use sting_flashbots.Mpt.Trie.{Trie, Tries, blank, count, node_of, ref, ref-digest, refs, digest}
use sting_flashbots.Mpt.Rounds.{prefix_passes, len-ref, get_value}

module _ (c : Codec) (laws : CodecLaws c) (key : List ℕ) (off : ℕ) where
  short_passes : (p r : List ℕ) → drop off key ≡ p ++ r → shared_prefix_length off key p ≡ length p
  short_passes p r e = prefix_passes off key p (ap (λ d. mismatch d p) e ∙ mismatch-append p r)

  pub leaf_accepts :
      (p v : List ℕ) (x : Item)
      → All IsNibble p
      → length p ≤ 1
      → drop off key ≡ p
      → c.rlp_decode v ≡ ok x
      → short_round c key off (cons (str (hex_prefix true p)) (cons (str v) nil)) true ≡ ok (done x)
  unfolding short_round
  leaf_accepts p v x ps s e dec =
      let passes = short_passes p [] (e ∙ sym (append-nil p)) in
      let reaches : length key ≤ off + length p = omega (arith, length-drop off key, ap length e) in
      ground (arith, decode_path_short c laws true p ps s, passes, reaches)

  pub extension_accepts :
      (p r : List ℕ) (child : Item)
      → All IsNibble p
      → length p ≤ 1
      → drop off key ≡ p ++ r
      → short_round c key off (cons (str (hex_prefix false p)) (cons child nil)) false
        ≡ ok (next (off + length p) child)
  unfolding short_round
  extension_accepts p r child ps s e =
      ground (arith, decode_path_short c laws false p ps s, short_passes p r e)

  pub branch_ends :
      (ts : Tries) (v : List ℕ) (target : Item)
      → count ts ≡ 16
      → drop off key ≡ []
      → off ≤ length key
      → branch_round key off target (refs c ts v) true ≡ ok (done (str v))
  unfolding branch_round
  branch_ends ts v target sixteen e le =
      let value : get_item (refs c ts v) 16 ≡ some (str v) =
        subst (λ k. get_item (refs c ts v) k ≡ some (str v)) sixteen (get_value c ts v) in
      let at_end : off ≡ length key = omega (arith, length-drop off key, ap length e) in
      ground arith

  pub branch_descends :
      (ts : Tries) (v : List ℕ) (target : Item) (i : ℕ) (ks : List ℕ) (t : Trie) (last : Bool)
      → i < 16
      → drop off key ≡ i ∷ ks
      → get_item (refs c ts v) i ≡ some (ref c t)
      → t ≢ blank
      → branch_round key off target (refs c ts v) last ≡ ok (next (off + 1) (ref c t))
  unfolding branch_round
  branch_descends ts v target i ks t last lt e slot nb =
      let here : get_elem? key off ≡ some i = get_elem?-drop_cons off key i ks e in
      let inside : off ≢ length key = λ q. cc (drop_all off key (omega (arith, q))) in
      ground (arith, len-ref c laws t nb)

-- One step of the loop, on the node that the target refers to.
module _ (c : Codec) (key : List ℕ) (off : ℕ) (t : Trie) (nb : t ≢ blank) (stack : List Items) where
  digest_matches : digest_eq (ref c t) (digest c (node_of c t)) ≡ true
  digest_matches =
      subst (λ r. digest_eq r (digest c (node_of c t)) ≡ true) (sym (ref-digest c t nb))
        (bytes_eq_refl (digest c (node_of c t)))

  pub verify_done :
      (x : Item)
      → node_round c key off (ref c t) (node_of c t) (is_last stack) ≡ ok (done x)
      → verify_from c key off (ref c t) (node_of c t ∷ stack) ≡ ok (some x)
  unfolding verify_from
  verify_done x e = rw (digest_matches, e)

  pub verify_next :
      (o : ℕ) (r : Item)
      → node_round c key off (ref c t) (node_of c t) (is_last stack) ≡ ok (next o r)
      → verify_from c key off (ref c t) (node_of c t ∷ stack) ≡ verify_from c key o r stack
  unfolding verify_from
  verify_next o r e = rw (digest_matches, e)
