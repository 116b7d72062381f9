-- ===== src/Account/Keyfiles.antt =====
-- Encrypted keys and mnemonics.
use sting_flashbots.Base.{
  ℕ, ◌≡◌, sym, ap, ◌∙◌, List, Option, none, some, Bool, ok, >>=-eq-ok, assert, length, ◌==◌, guard,
  attribute_error, ok-injective, subst,
}
use sting_flashbots.Ecdsa.{Curve}
use sting_flashbots.Keys.{Validation}
use sting_flashbots.Account.{
  Value, AccountPackage, KeyArgument, LocalAccount, keyfile_dict, key_bytes_of, encrypt,
  load_keyfile, decrypt, from_mnemonic, create_with_mnemonic,
}

-- What `encrypt` made of a private key, `decrypt` turns back into the key's bytes with the same password, where
-- the keyfile package decrypts what it encrypted.
pub decrypt-encrypt :
    (c : Curve) (check : Validation) (e : AccountPackage)
    → ((key password kdf : List ℕ) (iterations : Option ℕ)
        → e.decode_keyfile_json (e.create_keyfile_json key password kdf iterations) password
          ≡ ok key)
    → (default_kdf : List ℕ) (private_key : KeyArgument) (password : Value) (kdf : Option (List ℕ))
      (iterations : Option ℕ) (keyfile : e.Keyfile)
    → encrypt c check e default_kdf private_key password kdf iterations ≡ ok keyfile
    → decrypt c check e (keyfile_dict keyfile) password ≡ key_bytes_of c check e private_key
unfolding encrypt decrypt load_keyfile
decrypt-encrypt c check e law default private_key password kdf iterations keyfile made =
    let (key_bytes, bytes_are, e1) = >>=-eq-ok (key_bytes_of c check e private_key) _ made in
    let (password_bytes, password_is, e2) = >>=-eq-ok (e.text_bytes password) _ e1 in
    let (_, _, e3) = >>=-eq-ok (assert (length key_bytes == 32)) _ e2 in
    let chosen : List ℕ = elim kdf [ none ↦ default | some given ↦ given ] in
    let same : e.create_keyfile_json key_bytes password_bytes chosen iterations ≡ keyfile = cc in
    rw (password_is, bytes_are)
      (ap (λ f. e.decode_keyfile_json f password_bytes) (sym same)
        ∙ law key_bytes password_bytes chosen iterations)

-- The account that `create_with_mnemonic` returns is the one that `from_mnemonic` makes of the mnemonic that
-- it returns, with the same passphrase and path.
pub from_mnemonic-create_with_mnemonic :
    (c : Curve) (check : Validation) (e : AccountPackage) (enabled : Bool)
    (passphrase language account_path mnemonic : List ℕ) (num_words : ℕ) (account : LocalAccount)
    → create_with_mnemonic c check e enabled passphrase num_words language account_path
      ≡ ok (account, mnemonic)
    → from_mnemonic c check e enabled mnemonic passphrase account_path ≡ ok account
unfolding create_with_mnemonic
from_mnemonic-create_with_mnemonic c check e enabled passphrase language path mnemonic num account
      made =
    let (_, _, e1) = >>=-eq-ok (guard enabled attribute_error) _ made in
    let (mn, _, e2) = >>=-eq-ok (e.generate_mnemonic num language) _ e1 in
    let (acct, found, e3) = >>=-eq-ok (from_mnemonic c check e enabled mn passphrase path) _ e2 in
    let pair = ok-injective e3 in
    subst (λ w. from_mnemonic c check e enabled w passphrase path ≡ ok account)
      (ap (λ (q : LocalAccount × List ℕ). q.1) pair)
      (found ∙ ap (λ (q : LocalAccount × List ℕ). ok q.0) pair)
