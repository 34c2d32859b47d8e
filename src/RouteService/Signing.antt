-- ===== src/RouteService/Signing.antt =====
-- route_service: a signature that is built and then validated.
use gorouter.Base.{
  ℕ, ◌-◌, ◌≡◌, ◌≢◌, [], none, some, Text, text_eq, if◌then◌else◌, ltb, arith, Option-cases,
  List-cases, inl, inr,
}
use gorouter.RouteService.{
  Signature, Codec, Crypto, ok, route_service_expired, forwarded_url_mismatch, RouteServiceConfig,
  build_signature_and_metadata, decode_signature, signature_from_headers,
  generate_signature_and_metadata, validate_signature_timeout, validate_forwarded_url,
  validate_signature,
}

-- What the packages of JSON and base64 promise: what was written is read again.
pub record IsCodec (codec : Codec) : Type 0 where
  pub signature : (s : Signature) → codec.unmarshal_signature (codec.marshal_signature s) ≡ some s
  pub metadata : (n : Text) → codec.unmarshal_metadata (codec.marshal_metadata n) ≡ some n
  pub base64 : (t : Text) → codec.decode (codec.encode t) ≡ some t
  -- the JSON of the metadata is not empty, and neither is its base64
  pub some_text : (n : Text) → codec.encode (codec.marshal_metadata n) ≢ []

-- What was encrypted is decrypted again.
abbrev pub IsCrypto : Crypto → Type 0
IsCrypto crypto =
    (text : Text) (random : ℕ) (encrypted nonce : Text)
    → crypto.encrypt text random ≡ some (encrypted, nonce)
    → crypto.decrypt encrypted nonce ≡ some text

module _ (codec : Codec) (c : IsCodec codec) where
  signature_from_headers-encode :
      (crypto : Crypto) (s : Signature) (encrypted nonce : Text)
      → crypto.decrypt encrypted nonce ≡ some (codec.marshal_signature s)
      → signature_from_headers codec
          (codec.encode encrypted)
          (codec.encode (codec.marshal_metadata nonce))
          crypto
        ≡ ok s
  unfolding signature_from_headers decode_signature
  signature_from_headers-encode crypto s encrypted nonce dec =
      elim (List-cases (codec.encode (codec.marshal_metadata nonce))) [
        | inl empty ↦ absurd (c.some_text nonce empty)
        | inr (x, xs, e) ↦ ground (
          arith,
          e,
          dec,
          c.base64 encrypted,
          c.base64 (codec.marshal_metadata nonce),
          c.metadata nonce,
          c.signature s,
        )
      ]

  pub signature_from_headers-build :
      (crypto : Crypto) (s : Signature) (random : ℕ) (signature_header metadata_header : Text)
      → IsCrypto crypto
      → build_signature_and_metadata codec crypto s random
        ≡ some (signature_header, metadata_header)
      → signature_from_headers codec signature_header metadata_header crypto ≡ ok s
  unfolding build_signature_and_metadata
  signature_from_headers-build crypto s random sh mh good built =
      elim (Option-cases (crypto.encrypt (codec.marshal_signature s) random)) [
        | inl refused ↦ absurd (ground arith)
        | inr ((encrypted, nonce), done) ↦
            let is_sh : codec.encode encrypted ≡ sh = ground arith in
            let is_mh : codec.encode (codec.marshal_metadata nonce) ≡ mh = ground arith in
            rw (← is_sh, ← is_mh)
              (signature_from_headers-encode crypto s encrypted nonce
                (good _ random encrypted nonce done))
      ]

  -- A signature that GenerateSignatureAndMetadata makes with the current key is validated:
  -- ValidateSignature answers that it has expired if more than the timeout has passed, else a
  -- mismatch if the URL of the request is another one, and else no error. JSON and base64 read
  -- what they wrote, and the cipher decrypts what it encrypted.
  pub validate_signature-generate :
      (rs : RouteServiceConfig) (url request_url : Text) (t now random : ℕ)
      (signature_header metadata_header : Text)
      → IsCrypto rs.crypto
      → generate_signature_and_metadata codec rs url t random
        ≡ some (signature_header, metadata_header)
      → validate_signature codec rs signature_header metadata_header request_url now ≡ (
          if ltb rs.route_service_timeout (now - t)
          then some route_service_expired
          else if text_eq request_url url
          then none
          else some forwarded_url_mismatch)
  unfolding generate_signature_and_metadata validate_signature validate_signature_timeout
      validate_forwarded_url
  validate_signature-generate rs url request_url t now random sh mh good built =
      let read =
        signature_from_headers-build rs.crypto (record { forwarded_url = url; requested_time = t })
          random sh mh good built in
      ground (arith, read)
