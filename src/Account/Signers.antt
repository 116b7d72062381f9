-- ===== src/Account/Signers.antt =====
-- The arguments of the account's methods: the `from` field, private keys, signatures.
use sting_flashbots.Base.{
  ℕ, ◌≡◌, ◌≢◌, ◌⊎◌, inl, inr, refl, List, none, some, true, false, Bool-cases, bytes_eq,
  bytes_eq→eq, bytes_eq_refl, ok, err, type_error, guard, ◌>>◌, >>=-eq-ok, ok-injective,
}
use sting_flashbots.Ecdsa.{Curve}
use sting_flashbots.Keys.{Validation, PrivateKey}
use sting_flashbots.Signing.{sign_transaction_dict}
use sting_flashbots.Account.{
  AccountPackage, KeyArgument, LocalAccount, SignedTransaction, parse_private_key, from_key,
  sanitize, sign_transaction,
}

pub sanitize-none :
    (c : Curve) (check : Validation) (e : AccountPackage) (account : LocalAccount) (d : e.Dict)
    → e.from_field d ≡ none
    → sanitize c check e account d ≡ ok d
unfolding sanitize
sanitize-none c check e account d gone = rw (sanitize, gone) refl

sanitize-some :
    (c : Curve) (check : Validation) (e : AccountPackage) (account : LocalAccount) (d : e.Dict)
    (from : List ℕ)
    → e.from_field d ≡ some from
    → sanitize c check e account d
      ≡ (guard (bytes_eq from account.address) type_error >> ok (e.dissoc_from d))
unfolding sanitize
sanitize-some c check e account d from found = rw (sanitize, found) refl

-- The account of a key.
abbrev account_of : (e : AccountPackage) → PrivateKey → LocalAccount
account_of e key = record { address = e.local_address key; key_obj = key }

-- A mapping with a `from` field and a key that is parsed: either the field is the key's address, and the
-- transaction is signed as without the field, or it is not, and TypeError is raised.
pub sign_transaction_from :
    (c : Curve) (check : Validation) (e : AccountPackage) (d : e.Dict) (private_key : KeyArgument)
    (key : PrivateKey) (from : List ℕ) (k : ℕ)
    → parse_private_key c check e private_key ≡ ok key
    → e.is_mapping d ≡ true
    → e.is_mapping (e.dissoc_from d) ≡ true
    → e.from_field d ≡ some from
    → e.from_field (e.dissoc_from d) ≡ none
    → ((from ≡ e.local_address key)
        × (sign_transaction c check e d private_key k
            ≡ sign_transaction c check e (e.dissoc_from d) private_key k))
      ⊎ ((from ≢ e.local_address key)
          × (sign_transaction c check e d private_key k ≡ err type_error))
unfolding sign_transaction from_key
sign_transaction_from c check e d arg key from k parsed mapping mapping' found gone =
    elim (Bool-cases (bytes_eq from (e.local_address key))) [
      | inl same ↦ inl (
        bytes_eq→eq _ _ same,
        rw
            (
              mapping,
              mapping',
              parsed,
              sanitize-some c check e (account_of e key) d from found,
              sanitize-none c check e (account_of e key) (e.dissoc_from d) gone,
              same,
            )
            refl,
      )
      | inr differ ↦ inr (
        differs differ,
        rw (mapping, parsed, sanitize-some c check e (account_of e key) d from found, differ) refl,
      )
    ]
  where
    differs : bytes_eq from (e.local_address key) ≡ false → from ≢ e.local_address key
    differs h q =
        let same : bytes_eq from (e.local_address key) ≡ true =
          rw q (bytes_eq_refl (e.local_address key)) in
        cc

sign_transaction_dict_same :
    (c : Curve) (check : Validation) (e : AccountPackage) (d d' : e.Dict) (key : PrivateKey) (k : ℕ)
    → e.eth.serializable_unsigned_transaction_from_dict d
      ≡ e.eth.serializable_unsigned_transaction_from_dict d'
    → sign_transaction_dict c check e.eth key d k ≡ sign_transaction_dict c check e.eth key d' k
unfolding sign_transaction_dict
sign_transaction_dict_same c check e d d' key k same = rw (sign_transaction_dict, same) refl

-- What was signed with a `from` field is signed of another mapping without one from which eth_account makes the
-- same transaction.
pub sign_transaction_same :
    (c : Curve) (check : Validation) (e : AccountPackage) (d d' : e.Dict)
    (private_key : KeyArgument) (k : ℕ) (from : List ℕ) (signed : SignedTransaction)
    → e.from_field d ≡ some from
    → e.from_field d' ≡ none
    → e.is_mapping d' ≡ true
    → e.eth.serializable_unsigned_transaction_from_dict (e.dissoc_from d)
      ≡ e.eth.serializable_unsigned_transaction_from_dict d'
    → sign_transaction c check e d private_key k ≡ ok signed
    → sign_transaction c check e d' private_key k ≡ ok signed
unfolding sign_transaction
sign_transaction_same c check e d d' private_key k from signed found gone mapping same sent =
    let (_, _, s1) = >>=-eq-ok (guard (e.is_mapping d) type_error) _ sent in
    let (account, account_is, s2) = >>=-eq-ok (from_key c check e private_key) _ s1 in
    let s3 = rw (sanitize-some c check e account d from found) at s2 in
    let (sanitized, sanitized_is, s4) =
      >>=-eq-ok (guard (bytes_eq from account.address) type_error >> ok (e.dissoc_from d)) _ s3 in
    let (_, _, dropped) =
      >>=-eq-ok (guard (bytes_eq from account.address) type_error) _ sanitized_is in
    let s5 =
      rw
        (
          ← ok-injective dropped,
          sign_transaction_dict_same c check e (e.dissoc_from d) d' account.key_obj k same,
        )
        at s4 in
    rw (mapping, account_is, sanitize-none c check e account d' gone) s5
