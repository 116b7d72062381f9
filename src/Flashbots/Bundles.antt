-- ===== src/Flashbots/Bundles.antt =====
-- What `sign_bundle` returns, entry by entry.
use sting_flashbots.Base.{
  ℕ, ◌+◌, ◌≡◌, refl, sym, ap, ◌∙◌, List, [], ◌∷◌, ◌++◌, Option, none, some, bytes_eq, bytes_eq→eq,
  ok, no_such_key, >>=-eq-ok, ok-injective, assert, guard-eq-ok, or_raise,
}
use sting_flashbots.Flashbots.{
  ByteObject, bytes_object, hex_bytes_object, content, Web3Package, TxParams, ParsedTx, DictTx,
  Entry, raw_entry, signer_entry, dict_entry, unknown_entry, State, set_nonce, set_tx,
  parse_signed_tx, nonce_for, gas_for, sign_dict, tx_dict_of, int_of_hex, sign_entry, sign_entries,
  sign_bundle,
}

ok_parts :
    {e : Web3Package} {state : State e} {appended : List ByteObject} {q : State e × List ByteObject}
    → ok (state, appended) ≡ ok q
    → (q.0 ≡ state) × (q.1 ≡ appended)
ok_parts {e} h =
    let pair = sym (ok-injective h) in
    (
      ap (λ (q : State e × List ByteObject). q.0) pair,
      ap (λ (q : State e × List ByteObject). q.1) pair,
    )

-- A round on a signer's entry: the nonce, the transaction as it is signed, and the state after it.
pub signer_round :
    (e : Web3Package) (state next : State e) (signer : e.Signer) (place : ℕ)
    (appended : List ByteObject)
    → sign_entry e state (signer_entry signer place) ≡ ok (next, appended)
    → (nonce : ℕ) × (tx : TxParams e.Other) × (raw : List ℕ) × (nonce_for e state
          (e.address signer)
          (state.store place).nonce
        ≡ ok nonce)
      × (tx.from ≡ some (e.address signer))
      × (tx.nonce ≡ some nonce)
      × (e.sign_transaction signer tx ≡ ok raw)
      × (next ≡ record {
        nonces = set_nonce e state.nonces (e.address signer) (1 + nonce);
        store = set_tx e state.store place tx;
      })
      × (appended ≡ hex_bytes_object raw ∷ [])
unfolding sign_entry
signer_round e state next signer place appended h =
    let asked : TxParams e.Other = record (state.store place) { from = some (e.address signer) } in
    let (nonce, nonce_is, h1) = >>=-eq-ok (nonce_for e state (e.address signer) asked.nonce) _ h in
    let numbered : TxParams e.Other = record asked { nonce = some nonce } in
    let (gas, gas_is, h2) = >>=-eq-ok (gas_for e numbered) _ h1 in
    let complete : TxParams e.Other = record numbered { gas = some gas } in
    let (raw, raw_is, h3) = >>=-eq-ok (e.sign_transaction signer complete) _ h2 in
    let (next_is, out_is) = ok_parts {e = e} h3 in
    (nonce, complete, raw, nonce_is, refl, refl, raw_is, next_is, out_is)

-- A round on a transaction that is signed.
pub raw_round :
    (e : Web3Package) (state next : State e) (tx : ByteObject) (appended : List ByteObject)
    → sign_entry e state (raw_entry tx) ≡ ok (next, appended)
    → (parsed : ParsedTx e.Other) × (parse_signed_tx e (content tx) ≡ ok parsed)
      × (next ≡ record {
        nonces = set_nonce e state.nonces parsed.from (1 + parsed.nonce);
        store = state.store;
      })
      × (appended ≡ tx ∷ [])
unfolding sign_entry
raw_round e state next tx appended h =
    let (parsed, parsed_is, h1) = >>=-eq-ok (parse_signed_tx e (content tx)) _ h in
    let (next_is, out_is) = ok_parts {e = e} h1 in (parsed, parsed_is, next_is, out_is)

pub dict_round :
    (e : Web3Package) (state next : State e) (v : ℕ) (r s : List ℕ) (tx : DictTx e.Access)
    (appended : List ByteObject)
    → sign_entry e state (dict_entry v r s tx) ≡ ok (next, appended)
    → (raw : List ℕ) × (sign_dict e v r s tx ≡ ok raw)
      × (next ≡ state)
      × (appended ≡ bytes_object raw ∷ [])
unfolding sign_entry
dict_round e state next v r s tx appended h =
    let (raw, raw_is, h1) = >>=-eq-ok (sign_dict e v r s tx) _ h in
    let (next_is, out_is) = ok_parts {e = e} h1 in (raw, raw_is, next_is, out_is)

pub unknown_round :
    (e : Web3Package) (state next : State e) (appended : List ByteObject)
    → sign_entry e state unknown_entry ≡ ok (next, appended)
    → (next ≡ state) × (appended ≡ [])
unfolding sign_entry
unknown_round e state next appended h = ok_parts {e = e} h

-- The loop on a bundle that is not empty.
pub entries_round :
    (e : Web3Package) (state last : State e) (tx : Entry e) (txs : List (Entry e))
    (signed : List ByteObject)
    → sign_entries e state (tx ∷ txs) ≡ ok (last, signed)
    → (next : State e) × (appended rest : List ByteObject) × (sign_entry e state tx
        ≡ ok (next, appended))
      × (sign_entries e next txs ≡ ok (last, rest))
      × (signed ≡ appended ++ rest)
unfolding sign_entries
entries_round e state last tx txs signed h =
    let (round, round_is, h1) = >>=-eq-ok (sign_entry e state tx) _ h in
    let (loop, loop_is, h2) = >>=-eq-ok (sign_entries e round.0 txs) _ h1 in
    let (last_is, signed_is) = ok_parts {e = e} h2 in
    (
      round.0,
      round.1,
      loop.1,
      round_is,
      loop_is ∙ ap (λ (l : State e). ok (l, loop.1)) (sym last_is),
      signed_is,
    )

sign_dict_hash :
    (e : Web3Package) (v : ℕ) (r s : List ℕ) (tx : DictTx e.Access) (raw : List ℕ)
    → sign_dict e v r s tx ≡ ok raw
    → tx.hash ≡ some (e.keccak raw)
unfolding sign_dict
sign_dict_hash e v r s tx raw h =
    let (r_number, _, h1) = >>=-eq-ok (int_of_hex r) _ h in
    let (s_number, _, h2) = >>=-eq-ok (int_of_hex s) _ h1 in
    let (tx_dict, _, h3) = >>=-eq-ok (tx_dict_of e tx) _ h2 in
    let (unsigned, _, h10) =
      >>=-eq-ok (e.serializable_unsigned_transaction_from_dict tx_dict) _ h3 in
    let (encoded, _, h11) =
      >>=-eq-ok (e.encode_transaction unsigned (v, r_number, s_number)) _ h10 in
    let (hash, hash_is, h12) = >>=-eq-ok (or_raise tx.hash no_such_key) _ h11 in
    let (_, same, h13) = >>=-eq-ok (assert (bytes_eq (e.keccak encoded) hash)) _ h12 in
    let hash_eq : e.keccak encoded ≡ hash = bytes_eq→eq _ _ (guard-eq-ok _ _ same) in
    found tx.hash hash hash_is ∙ ap some (sym hash_eq ∙ ap e.keccak (ok-injective h13))
  where
    found :
        (key : Option (List ℕ)) (hash : List ℕ)
        → or_raise key no_such_key ≡ ok hash
        → key ≡ some hash
    found none hash h = cc
    found (some k) hash h = cc

module _ (e : Web3Package) where
  -- What an entry stands for in the list of signed transactions: itself, or what its signer made of a
  -- transaction from its address, or an encoding with the hash that the entry names, or nothing.
  abbrev pub IsSigned : Entry e → List ByteObject → Type 0
  IsSigned (raw_entry tx) out = out ≡ tx ∷ []
  IsSigned (signer_entry signer place) out =
      (tx : TxParams e.Other) × (raw : List ℕ) × (tx.from ≡ some (e.address signer))
      × (e.sign_transaction signer tx ≡ ok raw)
      × (out ≡ hex_bytes_object raw ∷ [])
  IsSigned (dict_entry v r s tx) out =
      (raw : List ℕ) × (tx.hash ≡ some (e.keccak raw)) × (out ≡ bytes_object raw ∷ [])
  IsSigned unknown_entry out = out ≡ []

  abbrev pub AreSigned : List (Entry e) → List ByteObject → Type 0
  AreSigned [] signed = signed ≡ []
  AreSigned (tx ∷ txs) signed =
      (out rest : List ByteObject) × IsSigned tx out × AreSigned txs rest × (signed ≡ out ++ rest)

  sign_entry-IsSigned :
      (state next : State e) (tx : Entry e) (out : List ByteObject)
      → sign_entry e state tx ≡ ok (next, out)
      → IsSigned tx out
  sign_entry-IsSigned state next (raw_entry tx) out h =
      let (_, _, _, out_is) = raw_round e state next tx out h in out_is
  sign_entry-IsSigned state next (signer_entry signer place) out h =
      let (_, tx, raw, _, from_is, _, raw_is, _, out_is) =
        signer_round e state next signer place out h in
      (tx, raw, from_is, raw_is, out_is)
  sign_entry-IsSigned state next (dict_entry v r s tx) out h =
      let (raw, raw_is, _, out_is) = dict_round e state next v r s tx out h in
      (raw, sign_dict_hash e v r s tx raw raw_is, out_is)
  sign_entry-IsSigned state next unknown_entry out h = (unknown_round e state next out h).1

  pub sign_entries-AreSigned :
      (state last : State e) (txs : List (Entry e)) (signed : List ByteObject)
      → sign_entries e state txs ≡ ok (last, signed)
      → AreSigned txs signed
  unfolding sign_entries
  sign_entries-AreSigned state last [] signed h = (ok_parts {e = e} h).1
  sign_entries-AreSigned state last (tx ∷ txs) signed h =
      let (next, out, rest, round_is, loop_is, signed_is) =
        entries_round e state last tx txs signed h in
      (
        out,
        rest,
        sign_entry-IsSigned state next tx out round_is,
        sign_entries-AreSigned next last txs rest loop_is,
        signed_is,
      )

  pub sign_bundle_loop :
      (store written : ℕ → TxParams e.Other) (txs : List (Entry e)) (signed : List ByteObject)
      → sign_bundle e store txs ≡ ok (written, signed)
      → (last : State e) × (sign_entries e (record { nonces = λ sender. none; store = store }) txs
          ≡ ok (last, signed))
        × (written ≡ last.store)
  unfolding sign_bundle
  sign_bundle_loop store written txs signed h =
      let (loop, loop_is, h1) =
        >>=-eq-ok (sign_entries e (record { nonces = λ sender. none; store = store }) txs) _ h in
      let pair = sym (ok-injective h1) in
      (
        loop.0,
        loop_is
            ∙ ap (λ (l : List ByteObject). ok (loop.0, l))
                (sym (ap (λ (q : (ℕ → TxParams e.Other) × List ByteObject). q.1) pair)),
        ap (λ (q : (ℕ → TxParams e.Other) × List ByteObject). q.0) pair,
      )

-- The signed transactions of a bundle stand in the order of its entries: each entry that is signed as it is
-- given; of each signer what it made of a transaction from its address; of each transaction of a block an
-- encoding whose hash is the one that the entry names; and nothing for an entry of another form.
pub sign_bundle-AreSigned :
    (e : Web3Package) (store written : ℕ → TxParams e.Other) (txs : List (Entry e))
    (signed : List ByteObject)
    → sign_bundle e store txs ≡ ok (written, signed)
    → AreSigned e txs signed
sign_bundle-AreSigned e store written txs signed h =
    let (last, loop_is, _) = sign_bundle_loop e store written txs signed h in
    sign_entries-AreSigned e _ last txs signed loop_is
