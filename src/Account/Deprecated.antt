-- ===== src/Account/Deprecated.antt =====
-- The deprecated names of searcher/src/enclave/lib/ecdsa/account.py, which warn and call the others.
use sting_flashbots.Base.{ℕ, List, Option, Result}
use sting_flashbots.Ecdsa.{Curve}
use sting_flashbots.Keys.{Validation}
use sting_flashbots.Account.{
  Value, AccountPackage, KeyArgument, LocalAccount, SignedTransaction, SignedMessage, from_key,
}

module _ (c : Curve) (check : Validation) (e : AccountPackage) where
  abbrev private_key_to_account : KeyArgument → Result LocalAccount
  private_key_to_account private_key = from_key c check e private_key

  abbrev recover_hash : Value → Option (Value × Value × Value) → Option Value → Result (List ℕ)
  recover_hash message_hash vrs signature =
      sting_flashbots.Account.recover_hash c check e message_hash vrs signature

  abbrev recover_transaction : Value → Result (List ℕ)
  recover_transaction serialized_transaction =
      sting_flashbots.Account.recover_transaction c check e serialized_transaction

  abbrev sign_hash : Value → KeyArgument → Result SignedMessage
  sign_hash message_hash private_key =
      sting_flashbots.Account.sign_hash c check e message_hash private_key

  -- With no nonce given.
  abbrev sign_transaction : e.Dict → KeyArgument → Result SignedTransaction
  sign_transaction transaction_dict private_key =
      sting_flashbots.Account.sign_transaction c check e transaction_dict private_key 0
