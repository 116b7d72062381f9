-- ===== src/Flashbots/Provider.antt =====
-- searcher/src/enclave/lib/flashbots: middleware.py, provider.py and `flashbot` of __init__.py. web3's encoding
-- and decoding of requests, its HTTP call and the signing of a text are parameters; its onion of middlewares
-- is the list of the layers, the innermost first.
use sting_flashbots.Base.{
  ℕ, ◌≡◌, refl, List, [], ◌∷◌, ◌++◌, Option, none, some, Bool, true, false, ◌||◌, ◌&&◌, ◌==◌,
  Result, not_implemented, guard, not, ◌>>=◌, ◌>>◌, if◌then◌else◌,
}

-- The methods that web3 is asked for; the last is any other.
pub data RpcEndpoint : Type 0 where
  eth_send_bundle eth_call_bundle eth_cancel_bundle eth_send_private_transaction
        eth_cancel_private_transaction :
      RpcEndpoint
  flashbots_get_bundle_stats flashbots_get_user_stats flashbots_get_bundle_stats_v2
        flashbots_get_user_stats_v2 :
      RpcEndpoint
  other_endpoint : List ℕ → RpcEndpoint

-- `method in FLASHBOTS_METHODS`
abbrev pub is_flashbots_method : RpcEndpoint → Bool
is_flashbots_method (other_endpoint name) = false
is_flashbots_method _ = true

abbrev pub is_send_private : RpcEndpoint → Bool
is_send_private eth_send_private_transaction = true
is_send_private _ = false

-- A text in a text.
abbrev pub starts_with : List ℕ → List ℕ → Bool
starts_with [] text = true
starts_with (c ∷ word) [] = false
starts_with (c ∷ word) (d ∷ text) = (c == d) && starts_with word text

abbrev pub contains : List ℕ → List ℕ → Bool
contains word [] = starts_with word []
contains word (c ∷ text) = starts_with word (c ∷ text) || contains word text

abbrev pub goerli : List ℕ
goerli = 103 ∷ 111 ∷ 101 ∷ 114 ∷ 108 ∷ 105 ∷ []

-- A header's name and value; of two with one name the first counts.
abbrev pub Headers : Type 0
Headers = List (List ℕ × List ℕ)

-- X-Flashbots-Signature
abbrev pub signature_header : List ℕ
signature_header =
    88 ∷ 45 ∷ 70 ∷ 108 ∷ 97 ∷ 115 ∷ 104 ∷ 98 ∷ 111 ∷ 116 ∷ 115 ∷ 45 ∷ 83 ∷ 105 ∷ 103 ∷ 110 ∷ 97
    ∷ 116 ∷ 117 ∷ 114 ∷ 101 ∷ []

pub record HttpPackage (Params Response : Type 0) : Type 0 where
  pub encode_rpc_request : RpcEndpoint → Params → List ℕ
  pub keccak_hex : List ℕ → List ℕ
  pub sign_text : List ℕ → Result (List ℕ)
  pub get_request_headers : Headers
  pub make_post_request : List ℕ → List ℕ → Headers → Result (List ℕ)
  pub decode_rpc_response : List ℕ → Result Response

pub record FlashbotProvider : Type 0 where
  pub endpoint_uri : List ℕ
  pub signature_account_address : List ℕ

-- `endpoint_uri or get_default_endpoint()`
unfoldable pub endpoint_or_default : List ℕ → Option (List ℕ) → List ℕ
endpoint_or_default default none = default
endpoint_or_default default (some []) = default
endpoint_or_default default (some (c ∷ uri)) = c ∷ uri

unfoldable pub make_provider : List ℕ → List ℕ → Option (List ℕ) → FlashbotProvider
make_provider default address endpoint_uri = record {
  endpoint_uri = endpoint_or_default default endpoint_uri;
  signature_account_address = address;
}

module _ {Params Response : Type 0} (http : HttpPackage Params Response) where
  unfoldable pub make_request : FlashbotProvider → RpcEndpoint → Params → Result Response
  make_request self method params = do
    let request_data = http.encode_rpc_request method params
    signature ← http.sign_text (http.keccak_hex request_data)
    let headers : Headers =
        (signature_header, self.signature_account_address ++ 58 ∷ signature)
        ∷ http.get_request_headers
    guard (not (contains goerli self.endpoint_uri && is_send_private method)) not_implemented
    raw_response ← http.make_post_request self.endpoint_uri request_data headers
    http.decode_rpc_response raw_response

-- What answers a request.
abbrev pub Handler : Type 0 → Type 0 → Type 0
Handler Params Response = RpcEndpoint → Params → Result Response

-- A layer makes a handler of the handler below it.
abbrev pub Layer : Type 0 → Type 0 → Type 0
Layer Params Response = Handler Params Response → Handler Params Response

-- `endpoint_uri is not None and "goerli" in endpoint_uri`
abbrev pub needs_poa : Option (List ℕ) → Bool
needs_poa none = false
needs_poa (some uri) = contains goerli uri

module _ {Params Response : Type 0} where
  -- `construct_flashbots_middleware`
  unfoldable pub middleware : Handler Params Response → Layer Params Response
  middleware provider_request below method params =
      if is_flashbots_method method then provider_request method params else below method params

  -- What the onion's layers make of the handler in the middle.
  abbrev pub wrap : List (Layer Params Response) → Handler Params Response → Handler Params Response
  wrap [] handler = handler
  wrap (layer ∷ layers) handler = wrap layers (layer handler)

  -- `inject` at layer 0 puts the layer innermost, `add` outermost.
  unfoldable pub flashbot :
      HttpPackage Params Response
      → Layer Params Response
      → List ℕ
      → List (Layer Params Response)
      → List ℕ
      → Option (List ℕ)
      → List (Layer Params Response)
  flashbot http geth_poa_middleware default layers address endpoint_uri =
      let provider = make_provider default address endpoint_uri in
      let injected = if needs_poa endpoint_uri then geth_poa_middleware ∷ layers else layers in
      injected ++ (middleware (make_request http provider) ∷ [])

  wrap-append :
      (layers : List (Layer Params Response)) (last : Layer Params Response)
      (handler : Handler Params Response)
      → wrap (layers ++ (last ∷ [])) handler ≡ last (wrap layers handler)
  wrap-append [] last handler = refl
  wrap-append (layer ∷ layers) last handler = wrap-append layers last (layer handler)

  poa_layers :
      (poa : Bool) (geth_poa_middleware : Layer Params Response)
      (layers : List (Layer Params Response)) (handler : Handler Params Response)
      → wrap (if poa then geth_poa_middleware ∷ layers else layers) handler
        ≡ wrap layers (if poa then geth_poa_middleware handler else handler)
  poa_layers true geth_poa_middleware layers handler = refl
  poa_layers false geth_poa_middleware layers handler = refl

  -- A client with the module installed, over any layers: a method of Flashbots is answered by the relay's
  -- provider alone, and any other by the client's own layers, over the PoA layer where the endpoint is goerli.
  pub wrap-flashbot :
      (http : HttpPackage Params Response) (geth_poa_middleware : Layer Params Response)
      (default address : List ℕ) (layers : List (Layer Params Response))
      (endpoint_uri : Option (List ℕ)) (handler : Handler Params Response) (method : RpcEndpoint)
      (params : Params)
      → wrap
          (flashbot http geth_poa_middleware default layers address endpoint_uri)
          handler
          method
          params
        ≡ (if is_flashbots_method method
            then make_request http (make_provider default address endpoint_uri) method params
            else wrap layers
                (if needs_poa endpoint_uri then geth_poa_middleware handler else handler)
                method
                params)
  unfolding flashbot middleware
  wrap-flashbot http poa default address layers endpoint_uri handler method params =
      rw
        (
          wrap-append (if needs_poa endpoint_uri then poa ∷ layers else layers)
              (middleware (make_request http (make_provider default address endpoint_uri))) handler,
          poa_layers (needs_poa endpoint_uri) poa layers handler,
        )
        refl
