-- ===== src/Proxy/Sticky.antt =====
-- proxy/proxy.go: the cookie of the sticky session, which setupStickySession sets after a round trip,
-- and where the next request with it goes.
use gorouter.Base.{
  ap, ◌∙◌, ℕ, ◌^◌, ◌≡◌, ◌≢◌, ◌⊎◌, inl, inr, refl, List, [], ◌∷◌, Option, none, some, Bool, true,
  false, not, ◌&&◌, Text, codes, arith, text_eq, text_eq_iff, text_cases, text_ne, Map, map_get,
  map_put, map_delete, get-put, get-delete, Bool-cases, Option-cases, if◌then◌else◌, leb,
}
use gorouter.Endpoint.{Endpoint}
use gorouter.Pool.{Pool, find_by_id, initial_choice, new_iterator, iterator_next}
use gorouter.Proxy.{Request, get_sticky_session}

-- What is read of a cookie of the response. An int is its bits, negative from 2 ^ 63 on.
pub record ResponseCookie : Type 0 where
  pub name : Text
  pub max_age : ℕ

pub record Cookie : Type 0 where
  pub name : Text
  pub value : Text
  pub path : Text
  pub max_age : ℕ
  pub http_only : Bool
  pub secure : Bool

abbrev pub is_negative : ℕ → Bool
is_negative n = leb (2 ^ 63) n

-- MaxAge of the first cookie of the session among those of the response.
unfoldable pub session_age : List ResponseCookie → Option ℕ
session_age [] = none
session_age (v ∷ vs) =
    if text_eq v.name (codes "JSESSIONID") then some v.max_age else session_age vs

unfoldable pub sticky_cookie : Endpoint → Bool → Text → ℕ → Cookie
sticky_cookie e secure_cookies path max_age = record {
  name = codes "__VCAP_ID__";
  value = e.private_instance_id;
  path = path;
  max_age = max_age;
  http_only = true;
  secure = secure_cookies;
}

-- The cookie that is set, if any.
unfoldable pub setup_sticky_session :
    List ResponseCookie → Endpoint → Text → Bool → Text → Option Cookie
setup_sticky_session cookies e original secure_cookies path =
    let changed = not (text_eq original []) && not (text_eq original e.private_instance_id) in
    elim (session_age cookies) [
      | none ↦ if changed then some (sticky_cookie e secure_cookies path 0) else none
      | some age ↦ some (sticky_cookie e secure_cookies path (if is_negative age then age else 0))
    ]

-- What a browser does with a cookie that is set.
abbrev pub remember : Option Cookie → Map Text → Map Text
remember none jar = jar
remember (some c) jar =
    if is_negative c.max_age then map_delete c.name jar else map_put c.name c.value jar

-- The next request of the browser.
abbrev pub next_request : Option Cookie → Request → Request
next_request o r = record r { cookies = remember o r.cookies }

get_sticky_session_lem :
    (r : Request) (s : Text) (o : Option Text)
    → map_get (codes "JSESSIONID") r.cookies ≡ some s
    → map_get (codes "__VCAP_ID__") r.cookies ≡ o
    → get_sticky_session r ≡ (elim o [ none ↦ [] | some id ↦ id ])
unfolding get_sticky_session
get_sticky_session_lem r s none h g = ground (arith, h, g)
get_sticky_session_lem r s (some id) h g = ground (arith, h, g)

module _ (r : Request) (s : Text)
    (has_session : map_get (codes "JSESSIONID") r.cookies ≡ some s) where
  stays :
      (e : Endpoint) (secure_cookies : Bool) (path : Text)
      → get_sticky_session (next_request (some (sticky_cookie e secure_cookies path 0)) r)
        ≡ e.private_instance_id
  unfolding sticky_cookie
  stays e secure_cookies path =
      let c = some (sticky_cookie e secure_cookies path 0) in
      get_sticky_session_lem (next_request c r) s (some e.private_instance_id)
        (get-put (codes "__VCAP_ID__") (codes "JSESSIONID") e.private_instance_id r.cookies
          ∙ has_session)
        (get-put (codes "__VCAP_ID__") (codes "__VCAP_ID__") e.private_instance_id r.cookies)

  ends :
      (e : Endpoint) (secure_cookies : Bool) (path : Text) (age : ℕ)
      → is_negative age ≡ true
      → get_sticky_session (next_request (some (sticky_cookie e secure_cookies path age)) r) ≡ []
  unfolding sticky_cookie
  ends e secure_cookies path age h =
      let c = some (sticky_cookie e secure_cookies path age) in
      let jar : remember c r.cookies ≡ map_delete (codes "__VCAP_ID__") r.cookies =
        ground (arith, h) in
      get_sticky_session_lem (next_request c r) s none
        (ap (map_get (codes "JSESSIONID")) jar
          ∙ get-delete (codes "__VCAP_ID__") (codes "JSESSIONID") r.cookies
          ∙ has_session)
        (ap (map_get (codes "__VCAP_ID__")) jar
          ∙ get-delete (codes "__VCAP_ID__") (codes "__VCAP_ID__") r.cookies)

goes_to :
    (p : Pool) (e : Endpoint) (id : Text) (random : ℕ → ℕ) (now : ℕ)
    → id ≢ []
    → find_by_id p id ≡ some e
    → iterator_next p (new_iterator id) random now
      ≡ some (p, record { initial_endpoint = []; last_endpoint = some e }, some e)
unfolding iterator_next initial_choice new_iterator
goes_to p e [] random now some_id found = absurd (some_id refl)
goes_to p e (c ∷ id) random now some_id found = ground (arith, found)

-- With a new cookie the next request goes to the endpoint.
set_goes_to :
    (r : Request) (s : Text)
    → map_get (codes "JSESSIONID") r.cookies ≡ some s
    → (e : Endpoint) (secure_cookies : Bool) (path : Text) (p : Pool) (random : ℕ → ℕ) (now : ℕ)
    → e.private_instance_id ≢ []
    → find_by_id p e.private_instance_id ≡ some e
    → (o : Option Cookie) → o ≡ some (sticky_cookie e secure_cookies path 0)
    → iterator_next p (new_iterator (get_sticky_session (next_request o r))) random now
      ≡ some (p, record { initial_endpoint = []; last_endpoint = some e }, some e)
set_goes_to r s has_session e secure_cookies path p random now some_id found o set =
    ap (λ c. iterator_next p (new_iterator (get_sticky_session (next_request c r))) random now) set
    ∙ ap (λ t. iterator_next p (new_iterator t) random now)
        (stays r s has_session e secure_cookies path)
    ∙ goes_to p e e.private_instance_id random now some_id found

-- What the cookie makes of the next request.
abbrev pub Sticks :
    Option ℕ → Text → Endpoint → Option Cookie → Request → Pool → (ℕ → ℕ) → ℕ → Type 0
Sticks age original e o r p random now =
    ((age ≡ none) × ((original ≡ []) ⊎ (original ≡ e.private_instance_id)) × (o ≡ none))
    ⊎ (((n : ℕ) × (age ≡ some n) × (is_negative n ≡ true))
        × (get_sticky_session (next_request o r) ≡ []))
    ⊎ ((((n : ℕ) × (age ≡ some n) × (is_negative n ≡ false))
          ⊎ ((age ≡ none) × (original ≢ []) × (original ≢ e.private_instance_id)))
        × (iterator_next p (new_iterator (get_sticky_session (next_request o r))) random now
            ≡ some (p, record { initial_endpoint = []; last_endpoint = some e }, some e)))

-- For a browser that has a cookie of the application's session, and an endpoint that has an
-- instance id by which the pool finds it, after setupStickySession: if the response does not set
-- the session and the endpoint is the one asked for, or none was asked for, no cookie is set; if
-- the response ends the session, the next request asks for no endpoint; and if the response sets
-- the session without ending it, or does not set it and another endpoint was asked for, the
-- iterator gives the next request this endpoint first. The browser keeps a cookie or, if its
-- MaxAge is negative, deletes it.
pub sticky_session_lem :
    (cookies : List ResponseCookie) (e : Endpoint) (original : Text) (secure_cookies : Bool)
    (path : Text) (r : Request) (s : Text) (p : Pool) (random : ℕ → ℕ) (now : ℕ)
    → map_get (codes "JSESSIONID") r.cookies ≡ some s
    → e.private_instance_id ≢ []
    → find_by_id p e.private_instance_id ≡ some e
    → Sticks
        (session_age cookies)
        original
        e
        (setup_sticky_session cookies e original secure_cookies path)
        r
        p
        random
        now
unfolding setup_sticky_session
sticky_session_lem cookies e original secure_cookies path r s p random now has_session some_id
      found =
    let id = e.private_instance_id in
    let o = setup_sticky_session cookies e original secure_cookies path in
    let again = set_goes_to r s has_session e secure_cookies path p random now some_id found o in
    elim (Option-cases (session_age cookies)) [
      | inr (n, age) ↦ elim (Bool-cases (is_negative n)) [
        | inl negative ↦
            let set : o ≡ some (sticky_cookie e secure_cookies path n) =
              ground (arith, age, negative) in
            inr (
              inl (
                (n, age, negative),
                ap (λ c. get_sticky_session (next_request c r)) set
                    ∙ ends r s has_session e secure_cookies path n negative,
              ))
        | inr lasting ↦ inr (inr (inl (n, age, lasting), again (ground (arith, age, lasting))))
      ]
      | inl no_session ↦ elim (text_cases original []) [
        | inl first ↦ inl (no_session, inl first, ground (arith, no_session, first))
        | inr later ↦ elim (text_cases original id) [
          | inl same ↦
              let t = (text_eq_iff original id).1 same in
              inl (no_session, inr same, ground (arith, no_session, t))
          | inr other ↦
              let t = text_ne original [] later in
              let u = text_ne original id other in
              inr (inr (inr (no_session, later, other), again (ground (arith, no_session, t, u))))
        ]
      ]
    ]
