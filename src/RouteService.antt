-- ===== src/RouteService.antt =====
-- route_service/header.go and route_service/route_service_config.go: the signature that a request
-- carries to a route service and back. The texts of JSON and base64 are a parameter, as is the
-- cipher of common/secure.
pub mod Signing
pub mod Accepting
mod Tests
use gorouter.Base.{
  ℕ, ◌-◌, List, [], ◌∷◌, Option, none, some, Bool, true, false, Text, text_eq, if◌then◌else◌, ltb,
}

pub record Signature : Type 0 where
  pub forwarded_url : Text
  pub requested_time : ℕ

-- encoding/json for the types Signature and Metadata, and base64.URLEncoding.
pub record Codec : Type 0 where
  pub marshal_signature : Signature → Text
  pub unmarshal_signature : Text → Option Signature
  pub marshal_metadata : Text → Text
  pub unmarshal_metadata : Text → Option Text
  pub encode : Text → Text
  pub decode : Text → Option Text

-- secure.Crypto; Encrypt draws a nonce from `random`, and `none` is an error.
pub record Crypto : Type 0 where
  pub encrypt : Text → ℕ → Option (Text × Text)
  pub decrypt : Text → Text → Option Text

pub data Error : Type 0 where
  no_metadata : Error
  not_decoded : Error
  not_decrypted : Error
  not_json : Error
  route_service_expired : Error
  forwarded_url_mismatch : Error

pub data Result : Type 0 where
  failed : Error → Result
  ok : Signature → Result

pub record RouteServiceConfig : Type 0 where
  pub route_service_timeout : ℕ
  pub crypto : Crypto
  pub crypto_prev : Option Crypto

module _ (codec : Codec) where
  -- The headers of the signature and of the metadata.
  unfoldable pub build_signature_and_metadata : Crypto → Signature → ℕ → Option (Text × Text)
  build_signature_and_metadata crypto signature random =
      elim (crypto.encrypt (codec.marshal_signature signature) random) [
        | none ↦ none
        | some (encrypted, nonce) ↦
            some (codec.encode encrypted, codec.encode (codec.marshal_metadata nonce))
      ]

  -- The error of the Unmarshal of the metadata is dropped, and the nonce then stays empty.
  abbrev pub nonce_of : Text → Text
  nonce_of decoded = elim (codec.unmarshal_metadata decoded) [ none ↦ [] | some nonce ↦ nonce ]

  abbrev pub parsed : Option Text → Result
  parsed none = failed not_decrypted
  parsed (some text) = elim (codec.unmarshal_signature text) [
    | none ↦ failed not_json
    | some s ↦ ok s
  ]

  unfoldable pub decode_signature : Text → Text → Crypto → Result
  decode_signature signature_header nonce crypto = elim (codec.decode signature_header) [
    | none ↦ failed not_decoded
    | some encrypted ↦ parsed (crypto.decrypt encrypted nonce)
  ]

  unfoldable pub signature_from_headers : Text → Text → Crypto → Result
  signature_from_headers signature_header [] crypto = failed no_metadata
  signature_from_headers signature_header (c ∷ metadata_header) crypto =
      elim (codec.decode (c ∷ metadata_header)) [
        | none ↦ failed not_decoded
        | some decoded ↦ decode_signature signature_header (nonce_of decoded) crypto
      ]

  unfoldable pub generate_signature_and_metadata :
      RouteServiceConfig → Text → ℕ → ℕ → Option (Text × Text)
  generate_signature_and_metadata rs forwarded_url_raw now random =
      build_signature_and_metadata rs.crypto
        (record { forwarded_url = forwarded_url_raw; requested_time = now }) random

  unfoldable pub validate_signature_timeout : RouteServiceConfig → Signature → ℕ → Option Error
  validate_signature_timeout rs signature now =
      if ltb rs.route_service_timeout (now - signature.requested_time)
      then some route_service_expired
      else none

  unfoldable pub validate_forwarded_url : Signature → Text → Option Error
  validate_forwarded_url signature request_url =
      if text_eq request_url signature.forwarded_url then none else some forwarded_url_mismatch

  abbrev error_of : Result → Option Error
  error_of (failed e) = some e
  error_of (ok s) = none

  -- ValidateSignature; `none` is no error.
  unfoldable pub validate_signature : RouteServiceConfig → Text → Text → Text → ℕ → Option Error
  validate_signature rs signature_header metadata_header request_url now =
      elim (signature_from_headers signature_header metadata_header rs.crypto) [
        | failed e ↦ elim rs.crypto_prev [
          | none ↦ some e
          | some prev ↦ error_of (signature_from_headers signature_header metadata_header prev)
        ]
        | ok signature ↦ elim (validate_signature_timeout rs signature now) [
          | some e ↦ some e
          | none ↦ validate_forwarded_url signature request_url
        ]
      ]
