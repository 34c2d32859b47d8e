-- ===== src/Config/Processing.antt =====
-- config/config.go: what Process makes of a configuration.
use gorouter.Base.{
  sym, ℕ, ◌-◌, ◌^◌, ◌≡◌, ◌≢◌, ◌⊎◌, inl, inr, refl, List, [], ◌∷◌, Option, none, some, Bool, true,
  false, Text, arith, text_eq, text_eq_iff, map_get, Bool-cases, Option-cases, if◌then◌else◌, ◌==◌,
}
use gorouter.Config.{
  Config, process_durations, cipher_map, is_blank, split, convert_cipher_string_to_int,
  process_cipher_suites, process_ssl, process,
}
use gorouter.Config.Durations.{AreModest, Timed, process_durations-Timed}

-- The suites have the names, one after the other, and every name is in the table.
abbrev pub AreSuites : List Text → List ℕ → Type 0
AreSuites [] [] = Unit
AreSuites [] (v ∷ vs) = ⊥
AreSuites (s ∷ ss) [] = ⊥
AreSuites (s ∷ ss) (v ∷ vs) = (map_get s cipher_map ≡ some v) × AreSuites ss vs

-- One of the names is not in the table.
abbrev pub HasUnknown : List Text → Type 0
HasUnknown [] = ⊥
HasUnknown (s ∷ ss) = (map_get s cipher_map ≡ none) ⊎ HasUnknown ss

convert_lem :
    (ss : List Text)
    → ((convert_cipher_string_to_int ss cipher_map ≡ none) × HasUnknown ss)
      ⊎ ((vs : List ℕ) × (convert_cipher_string_to_int ss cipher_map ≡ some vs) × AreSuites ss vs)
unfolding convert_cipher_string_to_int
convert_lem [] = inr ([], refl, tt)
convert_lem (s ∷ ss) = elim (Option-cases (map_get s cipher_map)) [
  | inl lost ↦ inl (ground (arith, lost), inl lost)
  | inr (v, found) ↦ elim (convert_lem ss) [
    | inl (bad, unknown) ↦ inl (ground (arith, found, bad), inr unknown)
    | inr (vs, good, are) ↦ inr (v ∷ vs, ground (arith, found, good), (found, are))
  ]
]

-- Why Process panics where TLS is asked for.
pub record IsRefused (cert : Option Text) (c : Config) : Type 0 where
  pub asked : c.enable_ssl ≡ true
  pub why :
      (is_blank c.cipher_string ≡ true) ⊎ HasUnknown (split b':' c.cipher_string) ⊎ (cert ≡ none)

-- What TLS uses in a configuration that has been processed.
pub record Secured (cert : Option Text) (c c' : Config) : Type 0 where
  pub off :
      c.enable_ssl ≡ false
      → (c'.cipher_suites ≡ c.cipher_suites) × (c'.ssl_certificate ≡ c.ssl_certificate)
  pub on :
      c.enable_ssl ≡ true
      → (is_blank c.cipher_string ≡ false)
        × AreSuites (split b':' c.cipher_string) c'.cipher_suites
        × (c'.ssl_certificate ≡ cert)
        × (cert ≢ none)

-- The suites and the certificate are all that differs.
abbrev secured_as : Config → List ℕ → Option Text → Config
secured_as c suites cert = record c { cipher_suites = suites; ssl_certificate = cert }

process_ssl-Secured :
    (cert : Option Text) (c : Config)
    → ((process_ssl cert c ≡ none) × IsRefused cert c)
      ⊎ ((suites : List ℕ) × (pair : Option Text) × (process_ssl cert c
            ≡ some (secured_as c suites pair))
          × Secured cert c (secured_as c suites pair))
unfolding process_ssl process_cipher_suites
process_ssl-Secured cert c = elim (Bool-cases c.enable_ssl) [
  | inr off ↦ inr (
    c.cipher_suites,
    c.ssl_certificate,
    ground (arith, off),
    record { off = λ h. (refl, refl); on = λ h. absurd (ground (arith, off, h)) },
  )
  | inl on ↦ elim (Bool-cases (is_blank c.cipher_string)) [
    | inl blank ↦ inl (ground (arith, on, blank), record { asked = on; why = inl blank })
    | inr given ↦ elim (convert_lem (split b':' c.cipher_string)) [
      | inl (bad, unknown) ↦
          inl (ground (arith, on, given, bad), record { asked = on; why = inr (inl unknown) })
      | inr (vs, good, are) ↦ elim (Option-cases cert) [
        | inl no_pair ↦ inl (
          ground (arith, on, given, good, no_pair),
          record { asked = on; why = inr (inr no_pair) },
        )
        | inr (pair, has_pair) ↦ inr (
          vs,
          some pair,
          ground (arith, on, given, good, has_pair),
          record {
            off = λ h. absurd (ground (arith, on, h));
            on = λ h. (given, are, sym has_pair, λ h. absurd (ground (arith, h, has_pair)));
          },
        )
      ]
    ]
  ]
]

-- What Process makes of a configuration.
pub record Processed (cpus : ℕ) (ip : Text) (cert : Option Text) (c c' : Config) : Type 0 where
  pub times : Timed c c'
  pub secure : Secured cert c c'
  pub address : c'.ip ≡ ip
  pub procs_default : c.go_max_procs ≡ 2 ^ 64 - 1 → c'.go_max_procs ≡ cpus
  pub procs_given : c.go_max_procs ≢ 2 ^ 64 - 1 → c'.go_max_procs ≡ c.go_max_procs
  pub services : c.route_service_secret ≢ [] → c'.route_service_enabled ≡ true
  pub no_secret : c.route_service_secret ≡ [] → c'.route_service_enabled ≡ c.route_service_enabled

enabled_lem :
    (secret : Text) (enabled : Bool)
    → (secret ≢ [] → (if text_eq secret [] then enabled else true) ≡ true)
      × (secret ≡ [] → (if text_eq secret [] then enabled else true) ≡ enabled)
enabled_lem secret enabled =
    let same = text_eq_iff secret [] in
    elim (Bool-cases (text_eq secret [])) [
      | inl none_given ↦ (λ h. absurd (h (same.0 none_given)), λ h. ground (arith, none_given))
      | inr given ↦
          (λ h. ground (arith, given), λ h. let e = same.1 h in absurd (ground (arith, e, given)))
    ]

-- For a configuration whose intervals are not negative and at most 9223372036 seconds, Process
-- panics only if the machine has no address, or if TLS is asked for and no cipher suites are
-- given, one of them is unknown or there is no key pair. Else every duration is its number of
-- seconds without an overflow, the stale threshold is the later of itself and the start delay,
-- the drain timeout is the endpoint timeout if none is given, the cipher suites are those of the
-- names in their order, the number of threads is that of the processors if it was -1, and route
-- services are enabled if there is a secret.
pub process-Processed :
    (cpus : ℕ) (local_ip cert : Option Text) (c : Config)
    → AreModest c
    → ((process cpus local_ip cert c ≡ none) × ((local_ip ≡ none) ⊎ IsRefused cert c))
      ⊎ ((ip : Text) × (c' : Config) × (local_ip ≡ some ip)
          × (process cpus local_ip cert c ≡ some c')
          × Processed cpus ip cert c c')
unfolding process process_durations
process-Processed cpus none cert c m = inl (refl, inl refl)
process-Processed cpus (some ip) cert c m =
    let c0 = record c {
      go_max_procs = if c.go_max_procs == 2 ^ 64 - 1 then cpus else c.go_max_procs;
    } in
    let c1 = record (process_durations c0) { ip = ip } in
    let t = process_durations-Timed c m in
    let (enabled, kept) = enabled_lem c.route_service_secret c.route_service_enabled in
    elim (process_ssl-Secured cert c1) [
      | inl (refused, why) ↦
          inl (ground (arith, refused), inr (record { asked = why.asked; why = why.why }))
      | inr (suites, pair, done, secured) ↦ inr (
        ip,
        record (secured_as c1 suites pair) {
          route_service_enabled =
              if text_eq c.route_service_secret [] then c.route_service_enabled else true;
        },
        refl,
        ground (arith, done),
        record {
          times = record {
            prune = t.prune;
            publish = t.publish;
            delay = t.delay;
            endpoint = t.endpoint;
            service = t.service;
            late = t.late;
            stale = t.stale;
            stale_is = t.stale_is;
            stale_fits = t.stale_fits;
            drain_given = t.drain_given;
            drain_not_given = t.drain_not_given;
          };
          secure = record { off = secured.off; on = secured.on };
          address = refl;
          procs_default = λ h. ground (arith, h);
          procs_given = λ h. ground (arith, h);
          services = enabled;
          no_secret = kept;
        },
      )
    ]
