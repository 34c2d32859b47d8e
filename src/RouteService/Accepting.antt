-- ===== src/RouteService/Accepting.antt =====
-- route_service/route_service_config.go: which signatures ValidateSignature accepts, with the current
-- and with the previous key, and which it says have expired or are for another URL.
use gorouter.Base.{
  ℕ, ◌-◌, ◌<◌, ◌≤◌, ◌≡◌, ◌≢◌, ◌⊎◌, ◌↔◌, inl, inr, refl, [], Option, none, some, Text, text_eq,
  text_eq_iff, text_cases, text_ne, ltb, arith, Option-cases, Bool-cases, List-cases, ap, subst,
  ◌∙◌, if◌then◌else◌,
}
use gorouter.RouteService.{
  Signature, Codec, Crypto, Error, Result, failed, ok, route_service_expired,
  forwarded_url_mismatch, no_metadata, not_decoded, not_decrypted, not_json, RouteServiceConfig,
  nonce_of, parsed, decode_signature, signature_from_headers, validate_signature_timeout,
  validate_forwarded_url, validate_signature,
}

Result-cases : (r : Result) → ((e : Error) × (r ≡ failed e)) ⊎ ((s : Signature) × (r ≡ ok s))
Result-cases (failed e) = inl (e, refl)
Result-cases (ok s) = inr (s, refl)

-- The error is not one of the two that are found in a signature that was read.
abbrev IsUnread : Error → Type 0
IsUnread e = (e ≢ route_service_expired) × (e ≢ forwarded_url_mismatch)

module _ (codec : Codec) (signature_header metadata_header : Text) where
  -- The key reads the signature: the metadata is there, both headers are base64, and what the
  -- cipher makes of them is the JSON of the signature.
  abbrev pub Reads : Crypto → Signature → Type 0
  Reads crypto s =
      (metadata_header ≢ [])
      × (m : Text) × (codec.decode metadata_header ≡ some m)
      × (encrypted : Text) × (codec.decode signature_header ≡ some encrypted)
      × (text : Text) × (crypto.decrypt encrypted (nonce_of codec m) ≡ some text)
      × (codec.unmarshal_signature text ≡ some s)

  -- What a key makes of the headers.
  abbrev Reading : Crypto → Type 0
  Reading crypto =
      ((s : Signature) × (signature_from_headers codec signature_header metadata_header crypto
          ≡ ok s)
        × Reads crypto s)
      ⊎ ((e : Error) × (signature_from_headers codec signature_header metadata_header crypto
            ≡ failed e)
          × IsUnread e
          × ((s : Signature) → ¬ Reads crypto s))

  -- What the cipher makes of a signature whose two headers are base64.
  decrypted-Reading :
      (crypto : Crypto) (m encrypted : Text)
      → metadata_header ≢ []
      → codec.decode metadata_header ≡ some m
      → codec.decode signature_header ≡ some encrypted
      → signature_from_headers codec signature_header metadata_header crypto
        ≡ parsed codec (crypto.decrypt encrypted (nonce_of codec m))
      → Reading crypto
  decrypted-Reading crypto m encrypted there is_m is_e read =
      elim (Option-cases (crypto.decrypt encrypted (nonce_of codec m))) [
        | inl refused ↦ inr (
          not_decrypted,
          read ∙ ap (parsed codec) refused,
          (λ x. cc, λ x. cc),
          λ s (t, m', is_m', e', is_e', text, is_t, is_s).
              let same_m : m ≡ m' = cc in let same_e : encrypted ≡ e' = cc in absurd cc,
        )
        | inr (text, is_t) ↦ elim (Option-cases (codec.unmarshal_signature text)) [
          | inl garbled ↦ inr (
            not_json,
            read ∙ ap (parsed codec) is_t ∙ ground (arith, garbled),
            (λ x. cc, λ x. cc),
            λ s (t, m', is_m', e', is_e', text', is_t', is_s).
                let same_m : m ≡ m' = cc in
                let same_e : encrypted ≡ e' = cc in let same_t : text ≡ text' = cc in absurd cc,
          )
          | inr (s, is_s) ↦ inl (
            s,
            read ∙ ap (parsed codec) is_t ∙ ground (arith, is_s),
            (there, m, is_m, encrypted, is_e, text, is_t, is_s),
          )
        ]
      ]

  reading : (crypto : Crypto) → Reading crypto
  unfolding signature_from_headers decode_signature
  reading crypto = elim (List-cases metadata_header) [
    | inl empty ↦ inr (no_metadata, ground (arith, empty), (λ x. cc, λ x. cc), λ s r. r.0 empty)
    | inr (c, cs, is) ↦ elim (Option-cases (codec.decode metadata_header)) [
      | inl garbled ↦ inr (
        not_decoded,
        ground (arith, is, garbled),
        (λ x. cc, λ x. cc),
        λ s (t, m, is_m, e, is_e, text, is_t, is_s). absurd cc,
      )
      | inr (m, is_m) ↦ elim (Option-cases (codec.decode signature_header)) [
        | inl garbled ↦ inr (
          not_decoded,
          ground (arith, is, is_m, garbled),
          (λ x. cc, λ x. cc),
          λ s (t, m', is_m', e, is_e, text, is_t, is_s). absurd cc,
        )
        | inr (encrypted, is_e) ↦
            decrypted-Reading crypto m encrypted (λ e. absurd cc) is_m is_e
              (ground (arith, is, is_m, is_e))
      ]
    ]
  ]

  Reads-same : (crypto : Crypto) (s s' : Signature) → Reads crypto s → Reads crypto s' → s ≡ s'
  Reads-same crypto s s' (t, m, is_m, e, is_e, text, is_t, is_s)
        (t', m', is_m', e', is_e', text', is_t', is_s') =
      let same_m : m ≡ m' = cc in let same_e : e ≡ e' = cc in let same_t : text ≡ text' = cc in cc

  module _ (rs : RouteServiceConfig) (request_url : Text) (now : ℕ) where
    -- The current key reads a signature that is not too old and for this URL, or only the previous
    -- key reads one.
    abbrev pub Accepted : Type 0
    Accepted =
        ((s : Signature) × Reads rs.crypto s
          × (now - s.requested_time ≤ rs.route_service_timeout)
          × (request_url ≡ s.forwarded_url))
        ⊎ (((s : Signature) → ¬ Reads rs.crypto s)
            × (prev : Crypto) × (rs.crypto_prev ≡ some prev)
            × (s : Signature) × Reads prev s)

    abbrev pub Expired : Type 0
    Expired =
        (s : Signature) × Reads rs.crypto s × (rs.route_service_timeout < now - s.requested_time)

    abbrev pub Mismatched : Type 0
    Mismatched =
        (s : Signature) × Reads rs.crypto s
        × (now - s.requested_time ≤ rs.route_service_timeout)
        × (request_url ≢ s.forwarded_url)

    -- The three outcomes that ValidateSignature tells apart.
    abbrev pub Outcomes : Option Error → Type 0
    Outcomes o =
        ((o ≡ none) ↔ Accepted)
        × ((o ≡ some route_service_expired) ↔ Expired)
        × ((o ≡ some forwarded_url_mismatch) ↔ Mismatched)

    module _ (s : Signature) (reads : Reads rs.crypto s) (o : Option Error) where
      -- Whatever the current key reads is this signature.
      this : (P : Signature → Type 0) (s' : Signature) → Reads rs.crypto s' → P s' → P s
      this P s' r p = subst P (Reads-same rs.crypto s' s r reads) p

      late-Outcomes :
          o ≡ some route_service_expired
          → rs.route_service_timeout < now - s.requested_time
          → Outcomes o
      late-Outcomes e late =
          let not_early : (s' : Signature)
              → Reads rs.crypto s'
              → now - s'.requested_time ≤ rs.route_service_timeout
              → ⊥ =
            λ s' r early.
              let w : now - s.requested_time ≤ rs.route_service_timeout =
                this (λ u. now - u.requested_time ≤ rs.route_service_timeout) s' r early in
              omega (arith, w, late) in
          (
            (
              λ h. absurd cc,
              λ a. elim a [
                | inl (s', r, early, same) ↦ absurd (not_early s' r early)
                | inr (never, prev, is_prev, p, by_prev) ↦ absurd (never s reads)
              ],
            ),
            (λ h. (s, reads, late), λ x. e),
            (λ h. absurd cc, λ (s', r, early, other). absurd (not_early s' r early)),
          )

      early-Outcomes :
          o ≡ (if text_eq request_url s.forwarded_url then none else some forwarded_url_mismatch)
          → now - s.requested_time ≤ rs.route_service_timeout
          → Outcomes o
      early-Outcomes e early =
          let not_late : Expired → ⊥ = λ (s', r, late).
            let w : rs.route_service_timeout < now - s.requested_time =
              this (λ u. rs.route_service_timeout < now - u.requested_time) s' r late in
            omega (arith, w, early) in
          elim (text_cases request_url s.forwarded_url) [
            | inl same ↦
                let is : o ≡ none =
                  ground (arith, e, (text_eq_iff request_url s.forwarded_url).1 same) in
                (
                  (λ h. inl (s, reads, early, same), λ a. is),
                  (λ h. absurd cc, λ x. absurd (not_late x)),
                  (
                    λ h. absurd cc,
                    λ (s', r, early', other).
                        absurd (this (λ u. request_url ≢ u.forwarded_url) s' r other same),
                  ),
                )
            | inr other ↦
                let is : o ≡ some forwarded_url_mismatch =
                  ground (arith, e, text_ne request_url s.forwarded_url other) in
                (
                  (
                    λ h. absurd cc,
                    λ a. elim a [
                      | inl (s', r, early', same) ↦
                          absurd (other (this (λ u. request_url ≡ u.forwarded_url) s' r same))
                      | inr (never, prev, is_prev, p, by_prev) ↦ absurd (never s reads)
                    ],
                  ),
                  (λ h. absurd cc, λ x. absurd (not_late x)),
                  (λ h. (s, reads, early, other), λ x. is),
                )
          ]

    -- The current key reads no signature.
    unread-Outcomes :
        (o : Option Error)
        → ((s : Signature) → ¬ Reads rs.crypto s)
        → (o ≢ some route_service_expired) × (o ≢ some forwarded_url_mismatch)
        → ((o ≡ none)
            ↔ ((prev : Crypto) × (rs.crypto_prev ≡ some prev) × (s : Signature) × Reads prev s))
        → Outcomes o
    unread-Outcomes o never (not_late, not_other) (f, g) = (
      (
        λ h. let (prev, is_prev, p, by_prev) = f h in inr (never, prev, is_prev, p, by_prev),
        λ a. elim a [
          | inl (s, r, early, same) ↦ absurd (never s r)
          | inr (none_reads, prev, is_prev, p, by_prev) ↦ g (prev, is_prev, p, by_prev)
        ],
      ),
      (λ h. absurd (not_late h), λ (s, r, late). absurd (never s r)),
      (λ h. absurd (not_other h), λ (s, r, early, other). absurd (never s r)),
    )

    -- What the previous key makes of the headers, if there is one.
    previous-Outcomes :
        (e : Error)
        → signature_from_headers codec signature_header metadata_header rs.crypto ≡ failed e
        → IsUnread e
        → ((s : Signature) → ¬ Reads rs.crypto s)
        → Outcomes (validate_signature codec rs signature_header metadata_header request_url now)
    unfolding validate_signature
    previous-Outcomes e unread (not_late, not_other) never = elim (Option-cases rs.crypto_prev) [
      | inl nobody ↦
          let is : validate_signature codec rs signature_header metadata_header request_url now
              ≡ some e =
            ground (arith, unread, nobody) in
          unread-Outcomes
            (validate_signature codec rs signature_header metadata_header request_url now) never
            (λ h. not_late cc, λ h. not_other cc)
            (λ h. absurd cc, λ (prev, is_prev, s, reads). absurd cc)
      | inr (prev, is_prev) ↦ elim (reading prev) [
        | inl (s, read, reads) ↦
            unread-Outcomes
              (validate_signature codec rs signature_header metadata_header request_url now) never
              (
                λ h. absurd (ground (arith, unread, is_prev, read, h)),
                λ h. absurd (ground (arith, unread, is_prev, read, h)),
              )
              (λ h. (prev, is_prev, s, reads), λ x. ground (arith, unread, is_prev, read))
        | inr (e', failed_too, (not_late', not_other'), never') ↦
            let is : validate_signature codec rs signature_header metadata_header request_url now
                ≡ some e' =
              ground (arith, unread, is_prev, failed_too) in
            unread-Outcomes
              (validate_signature codec rs signature_header metadata_header request_url now) never
              (λ h. not_late' cc, λ h. not_other' cc)
              (
                λ h. absurd cc,
                λ (prev', is_prev', s, reads).
                    let same : prev' ≡ prev = cc in
                    absurd (never' s (subst (λ c. Reads c s) same reads)),
              )
      ]
    ]

    -- ValidateSignature answers no error exactly if the current key reads a signature from the
    -- two headers that is not older than the timeout and for the URL of the request, or if only
    -- the previous key reads one, which is then not looked at further. It answers that the
    -- signature has expired exactly if the current key reads one that is older than the timeout,
    -- and a mismatch exactly if the current key reads one that is not, for another URL. A key
    -- reads a signature if the metadata is not empty, both headers are base64, and the cipher
    -- makes of them the JSON of the signature.
    pub validate_signature_lem :
        Outcomes (validate_signature codec rs signature_header metadata_header request_url now)
    unfolding validate_signature validate_signature_timeout validate_forwarded_url
    validate_signature_lem = elim (reading rs.crypto) [
      | inr (e, unread, not_these, never) ↦ previous-Outcomes e unread not_these never
      | inl (s, read, reads) ↦
          let o = validate_signature codec rs signature_header metadata_header request_url now in
          elim (Bool-cases (ltb rs.route_service_timeout (now - s.requested_time))) [
            | inl late ↦ late-Outcomes s reads o (ground (arith, read, late)) (ground (arith, late))
            | inr early ↦
                early-Outcomes s reads o (ground (arith, read, early)) (ground (arith, early))
          ]
    ]
