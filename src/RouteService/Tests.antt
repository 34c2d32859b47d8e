-- ===== src/RouteService/Tests.antt =====
-- A codec and two keys, on which the theorems are applied: the ciphers append their key.
use gorouter.Base.{
  ℕ, ◌-◌, ◌≡◌, refl, [], ◌∷◌, Option, none, some, Text, codes, text_eq, if◌then◌else◌, ltb, ◌==◌,
  arith,
}
use gorouter.RouteService.{
  Signature, Codec, Crypto, not_decrypted, route_service_expired, forwarded_url_mismatch,
  RouteServiceConfig, build_signature_and_metadata, decode_signature, signature_from_headers,
  generate_signature_and_metadata, validate_signature, validate_signature_timeout,
  validate_forwarded_url,
}
use gorouter.RouteService.Signing.{IsCodec, IsCrypto, validate_signature-generate}
use gorouter.RouteService.Accepting.{Outcomes, validate_signature_lem}

abbrev read_signature : Text → Option Signature
read_signature [] = none
read_signature (t ∷ url) = some (record { forwarded_url = url; requested_time = t })

abbrev unquote : Text → Option Text
unquote [] = none
unquote (c ∷ t) = if c == b'"' then some t else none

abbrev codec : Codec
codec = record {
  marshal_signature = λ s. s.requested_time ∷ s.forwarded_url;
  unmarshal_signature = read_signature;
  marshal_metadata = λ n. b'"' ∷ n;
  unmarshal_metadata = unquote;
  encode = λ t. t;
  decode = λ t. some t;
}

codec-IsCodec : IsCodec codec
codec-IsCodec = record {
  signature = λ s. refl;
  metadata = λ n. refl;
  base64 = λ t. refl;
  some_text = λ n e. cc;
}

abbrev with_key : ℕ → Text → Option Text
with_key key [] = none
with_key key (c ∷ t) = if c == key then some t else none

abbrev cipher : ℕ → Crypto
cipher key = record {
  encrypt = λ text random. some (key ∷ text, random ∷ []);
  decrypt = λ encrypted nonce. with_key key encrypted;
}

cipher-IsCrypto : (key : ℕ) → IsCrypto (cipher key)
cipher-IsCrypto key text random encrypted nonce e = ground arith

abbrev rs : RouteServiceConfig
rs = record { route_service_timeout = 60; crypto = cipher 7; crypto_prev = some (cipher 6) }

abbrev url : Text
url = codes "http://foo.com/"

abbrev signature : Signature
signature = record { forwarded_url = url; requested_time = 100 }

generated : generate_signature_and_metadata codec rs url 100 3 ≡ some (7 ∷ 100 ∷ url, b'"' ∷ 3 ∷ [])
unfolding generate_signature_and_metadata build_signature_and_metadata
generated = refl

-- The previous key reads what the current one does not, however old it is.
abbrev Runs : Type 0
Runs =
    (validate_signature codec rs (6 ∷ 100 ∷ url) (b'"' ∷ 3 ∷ []) (codes "http://bar.com/") 1000
      ≡ none)
    × (validate_signature codec rs (7 ∷ 100 ∷ url) (b'"' ∷ 3 ∷ []) url 161
        ≡ some route_service_expired)
    × (validate_signature codec rs (7 ∷ 100 ∷ url) (b'"' ∷ 3 ∷ []) (codes "http://bar.com/") 160
        ≡ some forwarded_url_mismatch)
    × (validate_signature codec rs (5 ∷ 100 ∷ url) (b'"' ∷ 3 ∷ []) url 100 ≡ some not_decrypted)

all_Runs : Runs
unfolding validate_signature validate_signature_timeout validate_forwarded_url
    signature_from_headers decode_signature
all_Runs = (refl, refl, refl, refl)

validate_signature-generate_example :
    validate_signature codec rs (7 ∷ 100 ∷ url) (b'"' ∷ 3 ∷ []) url 170 ≡ (
      if ltb 60 (170 - 100)
      then some route_service_expired
      else if text_eq url url
      then none
      else some forwarded_url_mismatch)
validate_signature-generate_example =
    validate_signature-generate codec codec-IsCodec rs url url 100 170 3 (7 ∷ 100 ∷ url)
      (b'"' ∷ 3 ∷ []) (cipher-IsCrypto 7) generated

validate_signature_lem_example :
    Outcomes codec
      (6 ∷ 100 ∷ url)
      (b'"' ∷ 3 ∷ [])
      rs
      (codes "http://bar.com/")
      1000
      (validate_signature codec rs (6 ∷ 100 ∷ url) (b'"' ∷ 3 ∷ []) (codes "http://bar.com/") 1000)
validate_signature_lem_example =
    validate_signature_lem codec (6 ∷ 100 ∷ url) (b'"' ∷ 3 ∷ []) rs (codes "http://bar.com/") 1000
