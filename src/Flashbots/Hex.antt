-- ===== src/Flashbots/Hex.antt =====
-- Hexadecimal texts and the requests that carry them.
use sting_flashbots.Base.{
  ℕ, zero, suc, ◌+◌, ◌-◌, ◌*◌, ◌/◌, ◌%◌, ◌≤◌, ◌<◌, ◌≡◌, ◌≢◌, ◌⊎◌, inl, inr, refl, sym, ap, ◌∙◌,
  List, [], ◌∷◌, ◌++◌, map, drop, Option, none, some, Bool, true, Bool-cases, false, ltb, ltb→lt,
  ◌==◌, ok, err, attribute_error, arith, >>=-eq-ok, ok-injective, Option-cases, All, length,
  if◌then◌else◌,
}
use sting_flashbots.Flashbots.{ByteObject, bytes_object, hex_bytes_object, content}
use sting_flashbots.Flashbots.Requests.{
  hex_digit, hex_prefix_text, bytes_hex, hex_of, to_hex, hex_digits, hex_number, FlashbotsOpts,
  no_opts, value_or, BundleRequest, bundle_request, Flashbots, signing_address_of,
  send_raw_bundle_munger, call_bundle_munger,
}

-- The value of a digit, and of a text of digits behind a value.
abbrev digit_value : ℕ → ℕ
digit_value c = if ltb c 58 then c - 48 else c - 87

abbrev text_value : ℕ → List ℕ → ℕ
text_value n [] = n
text_value n (c ∷ cs) = text_value (n * 16 + digit_value c) cs

-- Every two digits are a byte.
abbrev pub bytes_of_hex : List ℕ → List ℕ
bytes_of_hex [] = []
bytes_of_hex (c ∷ []) = []
bytes_of_hex (c ∷ d ∷ cs) = (digit_value c * 16 + digit_value d) ∷ bytes_of_hex cs

abbrev AreBytes : List ℕ → Type 0
AreBytes [] = Unit {0}
AreBytes (b ∷ bs) = (b < 256) × AreBytes bs

digit_value-hex_digit : (d : ℕ) → d < 16 → digit_value (hex_digit d) ≡ d
digit_value-hex_digit d h = ground arith

hex_digit_not_x : (d : ℕ) → (hex_digit (d % 16) == 120) ≡ false
hex_digit_not_x d = ground arith

to_hex_lem : (x : ByteObject) → to_hex x ≡ hex_prefix_text ++ bytes_hex (content x)
unfolding to_hex hex_of
to_hex_lem (bytes_object []) = refl
to_hex_lem (bytes_object (b ∷ bs)) = elim (Bool-cases (hex_digit (b / 16) == 48)) [
  | inl h ↦ rw (h, hex_digit_not_x b) refl
  | inr h ↦ rw h refl
]
to_hex_lem (hex_bytes_object bs) = refl

bytes_of_hex-bytes_hex : (bs : List ℕ) → AreBytes bs → bytes_of_hex (bytes_hex bs) ≡ bs
bytes_of_hex-bytes_hex [] h = refl
bytes_of_hex-bytes_hex (b ∷ bs) (small, h) =
    let high = digit_value-hex_digit (b / 16) (omega arith) in
    let low = digit_value-hex_digit (b % 16) (omega arith) in
    let rest = bytes_of_hex-bytes_hex bs h in
    let byte : digit_value (hex_digit (b / 16)) * 16 + digit_value (hex_digit (b % 16)) ≡ b =
      omega arith in
    ap
      (λ (r : List ℕ).
        (digit_value (hex_digit (b / 16)) * 16 + digit_value (hex_digit (b % 16))) ∷ r)
      rest
    ∙ ap (λ (x : ℕ). x ∷ bs) byte

text_value-hex_digits :
    (fuel n : ℕ) (digits : List ℕ)
    → n ≤ fuel
    → text_value 0 (hex_digits fuel n digits) ≡ text_value n digits
text_value-hex_digits zero n digits h =
    let low = digit_value-hex_digit (n % 16) (omega arith) in
    ap (λ m. text_value m digits) (omega arith)
text_value-hex_digits (suc fuel) n digits h = elim (Bool-cases (ltb n 16)) [
  | inl small ↦
      let lt = ltb→lt n 16 small in
      let low = digit_value-hex_digit n lt in rw small (ap (λ m. text_value m digits) (omega arith))
  | inr large ↦
      let low = digit_value-hex_digit (n % 16) (omega arith) in
      rw large (
        text_value-hex_digits fuel (n / 16) (hex_digit (n % 16) ∷ digits) (omega arith)
        ∙ ap (λ m. text_value m digits) (omega arith))
]

-- The number of a text that `hex` made.
abbrev pub number_of_hex : List ℕ → ℕ
number_of_hex cs = text_value 0 (drop 2 cs)

pub number_of_hex-hex_number : (n : ℕ) → number_of_hex (hex_number n) ≡ n
unfolding hex_number
number_of_hex-hex_number n = text_value-hex_digits n n [] (omega arith)

texts_read :
    (txs : List ByteObject)
    → All (λ x. AreBytes (content x)) txs
    → map (λ t. bytes_of_hex (drop 2 t)) (map to_hex txs) ≡ map content txs
texts_read [] small = refl
texts_read (x ∷ txs) (h, small) =
    rw (to_hex_lem x, texts_read txs small)
      (ap (λ (t : List ℕ). t ∷ map content txs) (bytes_of_hex-bytes_hex (content x) h))

-- The request that sends a bundle of bytes: its texts, read as hexadecimal digits behind two characters, are
-- the signed transactions in their order, and its block number reads as the target block.
pub send_raw_bundle_munger_texts :
    (self : Flashbots) (txs : List ByteObject) (target : ℕ) (opts : Option FlashbotsOpts)
    (request : BundleRequest)
    → All (λ x. AreBytes (content x)) txs
    → send_raw_bundle_munger self txs target opts ≡ ok request
    → (map (λ t. bytes_of_hex (drop 2 t)) request.txs ≡ map content txs)
      × (number_of_hex request.block_number ≡ target)
unfolding send_raw_bundle_munger
send_raw_bundle_munger_texts self txs target opts request small h =
    let (address, _, h1) = >>=-eq-ok (signing_address_of self (value_or opts no_opts)) _ h in
    let made = sym (ok-injective h1) in
    (
      ap (λ (r : BundleRequest). map (λ t. bytes_of_hex (drop 2 t)) r.txs) made
          ∙ texts_read txs small,
      ap (λ (r : BundleRequest). number_of_hex r.block_number) made
          ∙ number_of_hex-hex_number target,
    )

-- The options' signing address, or its lack.
abbrev pub given_address : Option FlashbotsOpts → Option (Option (List ℕ))
given_address opts = (value_or opts no_opts).signing_address

address_given :
    (self : Flashbots) (opts : FlashbotsOpts) (address : Option (List ℕ))
    → opts.signing_address ≡ some address
    → signing_address_of self opts ≡ ok address
unfolding signing_address_of
address_given self opts address given = rw (signing_address_of, given) refl

address_of_account :
    (self : Flashbots) (opts : FlashbotsOpts)
    → opts.signing_address ≡ none
    → signing_address_of self opts ≡ elim self.signature_account_address [
      | none ↦ err attribute_error
      | some address ↦ ok (some address)
    ]
unfolding signing_address_of
address_of_account self opts missing = rw (signing_address_of, missing) refl

-- A bundle is sent with the signing address that the options give, or with the account's where they give none
-- and the module has an account; where it has none, AttributeError is raised.
pub send_raw_bundle_munger_address :
    (self : Flashbots) (txs : List ByteObject) (target : ℕ) (opts : Option FlashbotsOpts)
    → ((request : BundleRequest) × (send_raw_bundle_munger self txs target opts ≡ ok request)
        × ((given_address opts ≡ some request.signing_address)
            ⊎ ((given_address opts ≡ none)
                × (request.signing_address ≢ none)
                × (self.signature_account_address ≡ request.signing_address))))
      ⊎ ((given_address opts ≡ none)
          × (self.signature_account_address ≡ none)
          × (send_raw_bundle_munger self txs target opts ≡ err attribute_error))
unfolding send_raw_bundle_munger
send_raw_bundle_munger_address self txs target opts = elim (Option-cases (given_address opts)) [
  | inr (address, given) ↦ inl (
    bundle_request txs target (value_or opts no_opts) address,
    rw (address_given self (value_or opts no_opts) address given) refl,
    inl given,
  )
  | inl missing ↦
      let by_account = address_of_account self (value_or opts no_opts) missing in
      elim (Option-cases self.signature_account_address) [
        | inr (address, set) ↦ inl (
          bundle_request txs target (value_or opts no_opts) (some address),
          rw (by_account, set) refl,
          inr (missing, (λ q. cc), set),
        )
        | inl unset ↦ inr (missing, unset, rw (by_account, unset) refl)
      ]
]

prefix_longer : (text : List ℕ) → hex_prefix_text ++ text ≢ text
prefix_longer text q = let same = ap length q in absurd (omega arith)

-- A signed transaction is HexBytes, not Python's own bytes.
abbrev pub is_hex_bytes : ByteObject → Bool
is_hex_bytes (hex_bytes_object bs) = true
is_hex_bytes (bytes_object bs) = false

same_texts :
    (txs : List ByteObject)
    → All (λ tx. is_hex_bytes tx ≡ true) txs
    → map hex_of txs ≡ map to_hex txs
unfolding to_hex hex_of
same_texts [] all = refl
same_texts (hex_bytes_object bs ∷ txs) (here, all) =
    ap (λ (r : List (List ℕ)). (hex_prefix_text ++ bytes_hex bs) ∷ r) (same_texts txs all)
same_texts (bytes_object bs ∷ txs) (here, all) = cc

only_hex_bytes :
    (txs : List ByteObject)
    → map hex_of txs ≡ map to_hex txs
    → All (λ tx. is_hex_bytes tx ≡ true) txs
unfolding hex_of
only_hex_bytes [] same = tt
only_hex_bytes (hex_bytes_object bs ∷ txs) same = (refl, only_hex_bytes txs (ap (drop 1) same))
only_hex_bytes (bytes_object bs ∷ txs) same =
    absurd (prefix_longer (bytes_hex bs) (sym (to_hex_lem (bytes_object bs)) ∙ sym (ap first same)))
  where
    first : List (List ℕ) → List ℕ
    first [] = []
    first (t ∷ ts) = t

-- The request that sends a bundle, with any options and block: the request that simulates the bundle carries the
-- same texts of its transactions where all of them are HexBytes, and only there.
pub call_bundle_munger_texts :
    (self : Flashbots) (txs : List ByteObject) (target : ℕ) (opts : Option FlashbotsOpts)
    (request : BundleRequest) (block state : List ℕ) (timestamp : ℕ)
    → send_raw_bundle_munger self txs target opts ≡ ok request
    → (All (λ tx. is_hex_bytes tx ≡ true) txs
        → (call_bundle_munger txs block state timestamp).txs ≡ request.txs)
      × ((call_bundle_munger txs block state timestamp).txs ≡ request.txs
          → All (λ tx. is_hex_bytes tx ≡ true) txs)
unfolding call_bundle_munger send_raw_bundle_munger
call_bundle_munger_texts self txs target opts request block state timestamp sent =
    let (address, _, h) = >>=-eq-ok (signing_address_of self (value_or opts no_opts)) _ sent in
    let texts : map to_hex txs ≡ request.txs = ap (λ (r : BundleRequest). r.txs) (ok-injective h) in
    ((λ all. same_texts txs all ∙ texts), (λ same. only_hex_bytes txs (same ∙ sym texts)))
