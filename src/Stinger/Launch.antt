-- ===== src/Stinger/Launch.antt =====
-- searcher/src/enclave/gen_signing_key.py, with `setup_new_account` of enclave/utils.py: the enclave's key and the
-- file of its address, and what the contract of Honeypot pays for a signature by that key.
use sting_flashbots.Base.{ℕ, List, [], Result, ok, ◌>>=◌}
use sting_flashbots.Ecdsa.{Curve}
use sting_flashbots.Keys.{Validation}
use sting_flashbots.Account.{AccountPackage, LocalAccount, text_value, create}
use sting_flashbots.Honeypot.{Honeypot}

-- The files `secret_key` and `enclave_address`.
pub record KeyFiles : Type 0 where
  pub secret_key : List ℕ
  pub enclave_address : List ℕ

module _ (c : Curve) (check : Validation) (e : AccountPackage) where
  -- The middleware that web3 gets for the account is left out.
  unfoldable pub setup_new_account : List ℕ → Result LocalAccount
  setup_new_account random_bytes = create c check e random_bytes (text_value [])

  unfoldable pub gen_signing_key : List ℕ → Result KeyFiles
  gen_signing_key random_bytes = do
    signing_account ← setup_new_account random_bytes
    ok (record {
      secret_key = signing_account.key_obj.raw_key;
      enclave_address = signing_account.address;
    })
