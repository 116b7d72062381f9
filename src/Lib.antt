-- ===== src/Lib.antt =====
-- The verification library of the searcher (the "stinger") of Sting-Flashbots, in searcher/src.
--
-- The searcher proves, from inside an enclave, that a builder broke its promise of privacy: it
-- makes a transaction whose signature hides a commitment (a chosen nonce), sends it in a bundle,
-- and later shows with a Merkle Patricia proof that a block holds it. The parts of this library
-- follow the parts of the program:
--
-- * Mpt and its children: searcher/src/enclave/lib/mkp/proveth.py. `decode_compact`,
--   `shared_prefix_length`, `verify_mpt_proof` (Mpt), and `generate_proof` with its inner `aux`
--   (Mpt/Generate). A node is a list of RLP items (Rlp), a proof a list of nodes; a round of the
--   loop of `verify_mpt_proof` is a function that returns or goes on with a new offset and a new
--   target. Mpt/Blob and Mpt/Blocks are the proof of a transaction as it is constructed from a
--   block and verified (`generate_proof_blob`, `construct_proof_from_mpt`, `verify_tx_proof`), with
--   Mpt/Evidence and Mpt/Made. Mpt/Trie is the independent description: the trie that a root
--   commits to, the nodes that store it, and its reading `find`.
-- * Ecdsa and its children: searcher/src/enclave/lib/ecdsa/ecdsa.py, the whole file. The signer
--   takes the nonce as an argument.
-- * Keys and its children: searcher/src/enclave/lib/ecdsa/datatypes.py (`Signature`,
--   `NonRecoverableSignature`, `PublicKey`, `PrivateKey`) and the backend of
--   searcher/src/enclave/lib/ecdsa/main.py, which calls Ecdsa. A constructor is a function into a
--   result.
-- * Signing and its children: searcher/src/enclave/lib/ecdsa/signing.py, which calls the keys: the
--   chain id in `v` (Signing/ChainIds), signed messages and signed transactions.
-- * Account and its children: searcher/src/enclave/lib/ecdsa/account.py, which calls Signing and
--   Keys: signed transactions (Account/Recovery) and messages (Account/Messages), arguments
--   (Account/Signers), encrypted keys and mnemonics (Account/Keyfiles), the deprecated names
--   (Account/Deprecated), the settings of the class and its objects (Account/Settings).
-- * Flashbots and its children: searcher/src/enclave/lib/flashbots. `sign_bundle` of flashbots.py
--   (Flashbots, Flashbots/Nonces, Flashbots/Bundles) writes to the caller's transaction objects,
--   which are places of a store; the responses and their loops (Flashbots/Responses,
--   Flashbots/Waits), what the methods send (Flashbots/Requests, Flashbots/Hex), `simulate`
--   (Flashbots/Simulate, Flashbots/Simulations), and the middleware and the provider
--   (Flashbots/Provider).
-- * Enclave and its children: searcher/src/enclave/utils.py: Pedersen commitments over Commitment
--   (Enclave/Commitments), the bytes of numbers (Enclave/Words), and the transactions that the
--   scripts generate and send over Flashbots (Enclave/Senders, Enclave/Turns).
-- * Stinger and its children: searcher/src/enclave/verify_evidence.py, which composes the proofs of
--   Mpt, the commitment of Enclave and the signatures of Account (Stinger/Soundness,
--   Stinger/Complete), and searcher/src/enclave/create_stinger.py and searcher/src/make_evidence.py
--   (Stinger/Scripts, Stinger/Commits).
-- * Keys/Objects, Keys/Equality and Keys/Setters: the rest of
--   searcher/src/enclave/lib/ecdsa/datatypes.py, the methods of the classes as Python objects, and
--   how they agree with the constructors.
-- * Honeypot and its children: chain/solidity/Honeypot.sol, the contract that the enclave's
--   signature is for: its functions (Honeypot), the states that calls lead to (Honeypot/History,
--   Honeypot/Winners), and what verify_evidence returns as an argument of collectBounty
--   (Honeypot/Payout).
-- * Bounty and Bounty/Payments: searcher/src/setup_bounty.py, whose scripts call the contract of
--   Honeypot.
-- * Setup of Enclave: the rest of searcher/src/enclave/utils.py, the connection to the builder and
--   calls of a contract.
-- * Launch of Stinger: searcher/src/enclave/gen_signing_key.py, the key files, up to the contract's
--   payment.
-- * Commitment and its children: from searcher/src/enclave/lib/commitment/secp256k1.py the scalar
--   multiplication, the 32 bytes of a number (Commitment/Integers), and the square roots and the
--   text of points (Commitment/Points), and random points (Commitment/Random).
-- * Base and its children: results with the kinds of Python's exceptions, lists and bytes.
--
-- Bytes and numbers are natural numbers, byte strings lists of them. An exception is the value
-- `err` of its kind, an `assert` raises `assertion_error`. Python's unbounded integers are natural
-- numbers, with the cases where a subtraction would be negative written out.
--
-- Code outside the repository, or copied into it from another project, is a record of operations
-- that the definitions take as an argument, with a second record of its documented laws: rlp and
-- Keccak (Rlp.Codec, CodecLaws), the trie package (Mpt.Generate.TriePackage, IsStored), proofs and
-- blocks (Mpt.Blob.ProofPackage, Mpt.Evidence.ProofLaws, Mpt.Blocks.BlockPackage,
-- Mpt.Made.HeaderLaws), eth_keys' curve and checks (Ecdsa.Curve, CurveLaws, Keys.Validation,
-- ValidationLaws), eth_account's transactions (Signing.TransactionPackage,
-- Signing.Transactions.SignedForm), hexbytes, the transaction decoders and the keyfiles of the
-- account (Account.AccountPackage, Account.Recovery.AccountLaws), web3 and its node
-- (Flashbots.Web3Package, Flashbots.Simulate.Node, Flashbots.Provider.HttpPackage), the curve's
-- points and the random choices (Enclave.Generators, Enclave.Choice), what the evidence is checked
-- with (Stinger.EvidencePackage, Stinger.Soundness.EvidenceLaws, Stinger.Complete.DictLaws), the
-- EVM and RLPReader (Honeypot.Evm, Honeypot.Payout.PayoutLaws), what the scripts call
-- (Bounty.BountyPackage, Bounty.Payments.BountyLaws, Enclave.Setup.CallPackage), and the group and
-- the field of the vendored curve library of searcher/src/enclave/lib/commitment (Commitment.Group,
-- GroupLaws, Commitment.Points.Field, FieldLaws). The Tests modules fill them with concrete
-- functions.
--
-- Loops over a list are recursion on it. `aux` recurses on fuel, as deep as Python's recursion; the
-- nodes on the way of a key are enough (Mpt/Route). Python's `pow` squares for 256 rounds, enough
-- for an exponent below 2 ^ 256; the loops that wait for a block recurse on the number of readings
-- of the chain, and the readings up to the block they wait for are enough; the loop of `mult` runs
-- on its factor, which halves and is therefore never too small.
--
-- Not modelled: the headers of the py-evm copy, the objects of web3 that stand for the contract;
-- and, since they only read and write, the network, the file system, the web3 client and
-- attestation (ra_tls.py, sgx-quote.py, sgx-report.py). The patched builder is another program.
pub mod Account
pub mod Base
pub mod Bounty
pub mod Commitment
pub mod Ecdsa
pub mod Enclave
pub mod Flashbots
pub mod Honeypot
pub mod Keys
pub mod Mpt
pub mod Rlp
pub mod Signing
pub mod Stinger
