-- ===== src/Flashbots/Requests.antt =====
-- The mungers of searcher/src/enclave/lib/flashbots/flashbots.py: what each method of the module sends. A text
-- is the list of its characters' codes.
use sting_flashbots.Base.{
  ℕ, zero, suc, ◌+◌, ◌/◌, ◌%◌, List, [], ◌∷◌, ◌++◌, map, take, Option, none, some, ltb, bytes_eq,
  Result, ok, err, attribute_error, ◌>>=◌, if◌then◌else◌,
}
use sting_flashbots.Flashbots.{
  ByteObject, bytes_object, hex_bytes_object, Web3Package, TxParams, Entry, sign_bundle,
}
use sting_flashbots.Flashbots.Responses.{
  BundleResponse, PrivateTransactionResponse, make_bundle_response, make_private_response,
}

abbrev pub hex_digit : ℕ → ℕ
hex_digit d = if ltb d 10 then 48 + d else 87 + d

-- The text `0x`.
abbrev pub hex_prefix_text : List ℕ
hex_prefix_text = 48 ∷ 120 ∷ []

-- `bytes.hex`
abbrev pub bytes_hex : List ℕ → List ℕ
bytes_hex [] = []
bytes_hex (b ∷ bs) = hex_digit (b / 16) ∷ hex_digit (b % 16) ∷ bytes_hex bs

-- `x.hex()`, which HexBytes gives its prefix.
unfoldable pub hex_of : ByteObject → List ℕ
hex_of (bytes_object bs) = bytes_hex bs
hex_of (hex_bytes_object bs) = hex_prefix_text ++ bytes_hex bs

unfoldable pub to_hex : ByteObject → List ℕ
to_hex signed_transaction =
    let tx_hex = hex_of signed_transaction in
    if bytes_eq (take 2 tx_hex) hex_prefix_text then tx_hex else hex_prefix_text ++ tx_hex

-- `hex` of a number, digit by digit from the last; the number itself is fuel enough.
abbrev pub hex_digits : ℕ → ℕ → List ℕ → List ℕ
hex_digits zero n digits = hex_digit (n % 16) ∷ digits
hex_digits (suc fuel) n digits =
    let longer = hex_digits fuel (n / 16) (hex_digit (n % 16) ∷ digits) in
    if ltb n 16 then hex_digit n ∷ digits else longer

unfoldable pub hex_number : ℕ → List ℕ
hex_number n = hex_prefix_text ++ hex_digits n n []

-- FlashbotsOpts: a key is there or not, and its value may be None.
pub record FlashbotsOpts : Type 0 where
  pub min_timestamp : Option (Option ℕ)
  pub max_timestamp : Option (Option ℕ)
  pub reverting_tx_hashes : Option (Option (List (List ℕ)))
  pub replacement_uuid : Option (Option (List ℕ))
  pub signing_address : Option (Option (List ℕ))

abbrev pub no_opts : FlashbotsOpts
no_opts = record {
  min_timestamp = none;
  max_timestamp = none;
  reverting_tx_hashes = none;
  replacement_uuid = none;
  signing_address = none;
}

pub record BundleRequest : Type 0 where
  pub txs : List (List ℕ)
  pub block_number : List ℕ
  pub min_timestamp : Option ℕ
  pub max_timestamp : Option ℕ
  pub reverting_tx_hashes : Option (List (List ℕ))
  pub replacement_uuid : Option (List ℕ)
  pub signing_address : Option (List ℕ)

pub data Response : Type 0 where
  bundle_response : BundleResponse → Response
  private_response : PrivateTransactionResponse → Response

-- The module object: the attributes that its methods read and write, where they are set.
pub record Flashbots : Type 0 where
  pub signature_account_address : Option (List ℕ)
  pub response : Option Response

-- The value of a key, or its default.
abbrev pub value_or {ℓ} : {A : Type ℓ} → Option A → A → A
value_or (some value) default = value
value_or none default = default

unfoldable pub signing_address_of : Flashbots → FlashbotsOpts → Result (Option (List ℕ))
signing_address_of self opts = elim opts.signing_address [
  | some given ↦ ok given
  | none ↦ elim self.signature_account_address [
    | none ↦ err attribute_error
    | some address ↦ ok (some address)
  ]
]

-- The dictionary that is sent.
abbrev pub bundle_request : List ByteObject → ℕ → FlashbotsOpts → Option (List ℕ) → BundleRequest
bundle_request signed_bundled_transactions target_block_number opts signing_address = record {
  txs = map to_hex signed_bundled_transactions;
  block_number = hex_number target_block_number;
  min_timestamp = value_or opts.min_timestamp (some 0);
  max_timestamp = value_or opts.max_timestamp (some 0);
  reverting_tx_hashes = value_or opts.reverting_tx_hashes (some []);
  replacement_uuid = value_or opts.replacement_uuid none;
  signing_address = signing_address;
}

unfoldable pub send_raw_bundle_munger :
    Flashbots → List ByteObject → ℕ → Option FlashbotsOpts → Result BundleRequest
send_raw_bundle_munger self signed_bundled_transactions target_block_number opts_argument = do
  let opts : FlashbotsOpts = value_or opts_argument no_opts
  signing_address ← signing_address_of self opts
  ok (bundle_request signed_bundled_transactions target_block_number opts signing_address)

unfoldable pub raw_bundle_formatter : Flashbots → Option Response
raw_bundle_formatter resp = resp.response

pub record CancelRequest : Type 0 where
  pub replacement_uuid : List ℕ

unfoldable pub cancel_bundles_munger : List ℕ → CancelRequest
cancel_bundles_munger replacement_uuid = record { replacement_uuid = replacement_uuid }

pub record CancelResponse : Type 0 where
  pub bundle_hashes : List (List ℕ)

unfoldable pub cancel_bundle_formatter : List (List ℕ) → CancelResponse
cancel_bundle_formatter res = record { bundle_hashes = res }

pub record CallRequest : Type 0 where
  pub txs : List (List ℕ)
  pub block_number : List ℕ
  pub state_block_number : List ℕ
  pub timestamp : ℕ

unfoldable pub call_bundle_munger : List ByteObject → List ℕ → List ℕ → ℕ → CallRequest
call_bundle_munger signed_bundled_transactions evm_block_number evm_block_state_number
      evm_timestamp =
    record {
      txs = map hex_of signed_bundled_transactions;
      block_number = evm_block_number;
      state_block_number = evm_block_state_number;
      timestamp = evm_timestamp;
    }

unfoldable pub get_user_stats_munger : ℕ → List ℕ
get_user_stats_munger block_number = hex_number block_number

-- A hash or a block number, as a text or as a number.
pub data TextOrNumber : Type 0 where
  text : List ℕ → TextOrNumber
  number : ℕ → TextOrNumber

abbrev pub hex_if_number : TextOrNumber → List ℕ
hex_if_number (text given) = given
hex_if_number (number n) = hex_number n

pub record StatsRequest : Type 0 where
  pub bundle_hash : List ℕ
  pub block_number : List ℕ

unfoldable pub get_bundle_stats_munger : TextOrNumber → TextOrNumber → StatsRequest
get_bundle_stats_munger bundle_hash block_number = record {
  bundle_hash = hex_if_number bundle_hash;
  block_number = hex_if_number block_number;
}

pub record PrivateRequest : Type 0 where
  pub tx : List ℕ
  pub max_block_number : ℕ

pub record CancelPrivateRequest : Type 0 where
  pub tx_hash : List ℕ

unfoldable pub cancel_private_transaction_munger : List ℕ → CancelPrivateRequest
cancel_private_transaction_munger tx_hash = record { tx_hash = tx_hash }

module _ (e : Web3Package) where
  unfoldable pub send_bundle_munger :
      Flashbots
      → (ℕ → TxParams e.Other)
      → List (Entry e)
      → ℕ
      → Option FlashbotsOpts
      → Result (Flashbots × (ℕ → TxParams e.Other) × BundleRequest)
  send_bundle_munger self store bundled_transactions target_block_number opts = do
    (written, signed_txs) ← sign_bundle e store bundled_transactions
    let answered : Flashbots = record self {
      response =
          some (bundle_response (make_bundle_response e.keccak signed_txs target_block_number));
    }
    request ← send_raw_bundle_munger answered signed_txs target_block_number opts
    ok (answered, written, request)

  -- One transaction: signed, or with a signer that signs it as it stands.
  pub data PrivateTransaction : Type 0 where
    signed_private : ByteObject → PrivateTransaction
    unsigned_private : e.Signer → TxParams e.Other → PrivateTransaction

  unfoldable pub signed_private_of : PrivateTransaction → Result ByteObject
  signed_private_of (signed_private signed_transaction) = ok signed_transaction
  signed_private_of (unsigned_private signer tx) = do
    raw ← e.sign_transaction signer tx
    ok (hex_bytes_object raw)

  unfoldable pub send_private_transaction_munger :
      (List ℕ → List ℕ)
      → ℕ
      → Flashbots
      → PrivateTransaction
      → Option ℕ
      → Result (Flashbots × PrivateRequest)
  send_private_transaction_munger sha3 current_block self transaction max_block_argument = do
    signed_transaction ← signed_private_of transaction
    let max_block_number = value_or max_block_argument (current_block + 25)
    ok (
      record self {
        response =
            some
              (private_response (make_private_response sha3 signed_transaction max_block_number));
      },
      record { tx = to_hex signed_transaction; max_block_number = max_block_number },
    )
