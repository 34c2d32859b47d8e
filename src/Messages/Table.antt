-- ===== src/Messages/Table.antt =====
-- The routing table that router/router.go builds from messages, as a quotient: two worlds are one
-- table when they have routes from the same paths to the same addresses. It forgets the trie, the
-- pools, the order in them, the objects and the times.
use gorouter.Base.{
  ap, sym, subst, ◌∙◌, ℕ, ◌≡◌, ◌⊎◌, ◌↔◌, inl, inr, List, [], ◌∷◌, some, true, false, Text, arith,
  text_cases, Bool-cases,
}
use mathlib.Core.Quot.{Quot}
use gorouter.Uri.{Uri}
use gorouter.Trie.Find.{path_cases}
use gorouter.Registry.Routes.{key_path}
use gorouter.Messages.{RegistryMessage, World, validate_message, handle_register, handle_unregister}
use gorouter.Messages.Domain.{has_colon, address, make_endpoint-fields, IsClean, Reaches}
use gorouter.Messages.Handling.{
  Names, Registers, Unregisters, handle_register-Registers, handle_unregister-Unregisters,
}

-- A message whose instance id has no colon.
abbrev pub PlainMessage : Type 0
PlainMessage = (rm : RegistryMessage) × (has_colon rm.private_instance_id ≡ false)

-- The routes that a message is about: none if it is not valid.
abbrev pub Claims : RegistryMessage → List Text → Text → Type 0
Claims rm ks a = (validate_message rm ≡ true) × Names rm.uris ks × (a ≡ address rm)

abbrev pub Settled : Type 0
Settled = (w : World) × IsClean w

abbrev pub SameTable : Settled → Settled → Type 0
SameTable a b = (ks : List Text) (ad : Text) → ∥ Reaches a.0 ks ad ∥₁ ↔ ∥ Reaches b.0 ks ad ∥₁

abbrev pub RoutingTable : Type 0
RoutingTable = Quot SameTable

named_or_not : (uris : List Uri) (ks : List Text) → Names uris ks ⊎ (¬ Names uris ks)
named_or_not [] ks = inr (λ bad. bad)
named_or_not (uri ∷ uris) ks = elim (path_cases ks (key_path uri)) [
  | inl here ↦ inl (inl here)
  | inr away ↦ elim (named_or_not uris ks) [
    | inl later ↦ inl (inr later)
    | inr never ↦ inr (λ n. elim n [ inl here ↦ away here | inr later ↦ never later ])
  ]
]

pub claimed_or_not :
    (rm : RegistryMessage) (ks : List Text) (a : Text) → Claims rm ks a ⊎ (¬ Claims rm ks a)
claimed_or_not rm ks a = elim (Bool-cases (validate_message rm)) [
  | inr refused ↦ inr (λ c. absurd (ground (arith, refused, c.0)))
  | inl valid ↦ elim (named_or_not rm.uris ks) [
    | inr never ↦ inr (λ c. never c.1)
    | inl named ↦ elim (text_cases a (address rm)) [
      | inl same ↦ inl (valid, named, same)
      | inr other ↦ inr (λ c. other c.2)
    ]
  ]
]

module _ (rm : RegistryMessage) (w w' : World) where
  -- What a register message does to the routes, by address.
  Registers-Reaches :
      Registers rm rm.uris w w'
      → (ks : List Text) (a : Text)
      → Reaches w' ks a ↔ ((Names rm.uris ks × (a ≡ address rm)) ⊎ Reaches w ks a)
  Registers-Reaches r ks a =
      let announced : Names rm.uris ks → Reaches w' ks (address rm) = λ named.
        let (x, h, (ptr, is_x)) = r.named ks named in
        (x, h, ap (λ y. y.addr) is_x ∙ (make_endpoint-fields rm ptr).0) in
      (
        λ (x, h, at). elim (named_or_not rm.uris ks) [
          | inr never ↦ inr (x, (r.elsewhere ks x never).0 h, at)
          | inl named ↦ elim (text_cases x.addr (address rm)) [
            | inl same ↦ inl (named, sym at ∙ same)
            | inr other ↦ inr (x, (r.others ks x other).0 h, at)
          ]
        ],
        λ o. elim o [
          | inl (named, is_a) ↦ subst (Reaches w' ks) (sym is_a) (announced named)
          | inr (x, h, at) ↦ elim (named_or_not rm.uris ks) [
            | inr never ↦ (x, (r.elsewhere ks x never).1 h, at)
            | inl named ↦ elim (text_cases x.addr (address rm)) [
              | inl same ↦ subst (Reaches w' ks) (sym same ∙ at) (announced named)
              | inr other ↦ (x, (r.others ks x other).1 h, at)
            ]
          ]
        ],
      )

  Unregisters-Reaches :
      Unregisters rm rm.uris w w'
      → (ks : List Text) (a : Text)
      → Reaches w' ks a ↔ (Reaches w ks a × ¬ (Names rm.uris ks × (a ≡ address rm)))
  Unregisters-Reaches (clean, routes) ks a = (
    λ (x, h, at).
        let (was, apart) = (routes ks x).0 h in
        ((x, was, at), λ (named, is_a). apart named (at ∙ is_a)),
    λ ((x, h, at), out). (x, (routes ks x).1 (h, λ named same. out (named, sym at ∙ same)), at),
  )

handle_register_refused :
    (clock : ℕ → ℕ) (rm : RegistryMessage) (w : World)
    → validate_message rm ≡ false
    → handle_register clock w (some rm) ≡ w
unfolding handle_register
handle_register_refused clock rm w h = ground (arith, h)

handle_unregister_refused :
    (rm : RegistryMessage) (w : World)
    → validate_message rm ≡ false
    → handle_unregister w (some rm) ≡ some w
unfolding handle_unregister
handle_unregister_refused rm w h = ground (arith, h)

-- The handler of router.register keeps a clean world clean, and adds the routes of the message.
pub handle_register-Reaches :
    (clock : ℕ → ℕ) (rm : RegistryMessage) (w : World)
    → IsClean w
    → has_colon rm.private_instance_id ≡ false
    → IsClean (handle_register clock w (some rm))
      × ((ks : List Text) (a : Text)
          → Reaches (handle_register clock w (some rm)) ks a ↔ (Claims rm ks a ⊎ Reaches w ks a))
handle_register-Reaches clock rm w c id = elim (Bool-cases (validate_message rm)) [
  | inl valid ↦
      let r = handle_register-Registers clock w rm c id valid in
      (
        r.clean,
        λ ks a.
            let (f, g) = Registers-Reaches rm w (handle_register clock w (some rm)) r ks a in
            (
              λ h. elim (f h) [ inl (named, is_a) ↦ inl (valid, named, is_a) | inr was ↦ inr was ],
              λ o. g (elim o [ inl claimed ↦ inl (claimed.1, claimed.2) | inr was ↦ inr was ]),
            ),
      )
  | inr refused ↦
      let same = handle_register_refused clock rm w refused in
      (
        subst IsClean (sym same) c,
        λ ks a. (
          λ h. inr (subst (λ v. Reaches v ks a) same h),
          λ o.
              subst (λ v. Reaches v ks a) (sym same)
                (elim o [
                  | inl claimed ↦ absurd (ground (arith, claimed.0, refused))
                  | inr was ↦ was
                ]),
        ),
      )
]

-- The handler of router.unregister takes the routes of the message away, and does not panic.
pub handle_unregister-Reaches :
    (rm : RegistryMessage) (w : World)
    → IsClean w
    → (w' : World) × (handle_unregister w (some rm) ≡ some w')
      × IsClean w'
      × ((ks : List Text) (a : Text) → Reaches w' ks a ↔ (Reaches w ks a × ¬ Claims rm ks a))
handle_unregister-Reaches rm w c = elim (Bool-cases (validate_message rm)) [
  | inl valid ↦
      let (w', done, u) = handle_unregister-Unregisters w rm c valid in
      (
        w',
        done,
        u.0,
        λ ks a.
            let (f, g) = Unregisters-Reaches rm w w' u ks a in
            (
              λ h. let (was, out) = f h in (was, λ claimed. out (claimed.1, claimed.2)),
              λ (was, out). g (was, λ (named, is_a). out (valid, named, is_a)),
            ),
      )
  | inr refused ↦ (
    w,
    handle_unregister_refused rm w refused,
    c,
    λ ks a. (λ h. (h, λ claimed. absurd (ground (arith, claimed.0, refused))), λ (h, out). h),
  )
]
