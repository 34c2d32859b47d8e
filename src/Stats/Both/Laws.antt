-- ===== src/Stats/Both/Laws.antt =====
-- stats/active_apps.go, stats/top_apps.go: the two heaps as sets of entries, which an operation on
-- the one keeps for the other.
use gorouter.Base.{
  ap, subst, ℕ, ◌+◌, ◌<◌, ◌≡◌, ◌≢◌, ◌⊎◌, ◌↔◌, inl, inr, refl, Option, some, Bool, arith,
}
use gorouter.Stats.Order.{Leq, IsOrder}
use gorouter.Stats.Heap.{Heap, heap_push, update}
use gorouter.Stats.Heap.Swaps.{IsEntry}
use gorouter.Stats.Heap.Laws.{IsValid, Has, IsValid-agrees, heap_push-Pushed}
use gorouter.Stats.Heap.Takes.{heap_pop_lem, heap_remove_lem}
use gorouter.Stats.Both.{
  Both, heap_one, heap_two, with_one, with_two, and_one, and_two, push_one, push_two, pop_one,
  remove_one, remove_two,
}

abbrev pub Without : (ℕ → Type 0) → ℕ → ℕ → Type 0
Without s a r = s r × (r ≢ a)

abbrev pub With : (ℕ → Type 0) → ℕ → ℕ → Type 0
With s a r = s r ⊎ (r ≡ a)

pub update_other : {A : Type 0} → (f : ℕ → A) (i : ℕ) (a : A) (j : ℕ) → j ≢ i → update f i a j ≡ f j
unfolding update
update_other f i a j n = ground (arith, n)

pub update_here : {A : Type 0} → (f : ℕ → A) (i : ℕ) (a : A) → update f i a i ≡ a
unfolding update
update_here f i a = ground arith

-- The entries of both heaps: an index in each, and the data that the orders read.
pub record IsShared {E D : Type 0} (less_one : E → E → Bool) (set_one : E → Option ℕ → E)
    (before_one : D → D → Bool) (index_one : E → Option ℕ) (less_two : E → E → Bool)
    (set_two : E → Option ℕ → E) (before_two : D → D → Bool) (index_two : E → Option ℕ)
    (content : E → D) : Type 0 where
  pub less_one_lem : (e f : E) → less_one e f ≡ before_one (content e) (content f)
  pub less_two_lem : (e f : E) → less_two e f ≡ before_two (content e) (content f)
  pub content_one : (e : E) (k : Option ℕ) → content (set_one e k) ≡ content e
  pub content_two : (e : E) (k : Option ℕ) → content (set_two e k) ≡ content e
  pub one_one : (e : E) (k : Option ℕ) → index_one (set_one e k) ≡ k
  pub two_two : (e : E) (k : Option ℕ) → index_two (set_two e k) ≡ k
  pub one_two : (e : E) (k : Option ℕ) → index_one (set_two e k) ≡ index_one e
  pub two_one : (e : E) (k : Option ℕ) → index_two (set_one e k) ≡ index_two e
  pub order_one : IsOrder before_one
  pub order_two : IsOrder before_two

module _ {E D : Type 0} (less_one : E → E → Bool) (set_one : E → Option ℕ → E)
    (before_one : D → D → Bool) (index_one : E → Option ℕ) (less_two : E → E → Bool)
    (set_two : E → Option ℕ → E) (before_two : D → D → Bool) (index_two : E → Option ℕ)
    (content : E → D)
    (shared : IsShared less_one set_one before_one index_one less_two set_two before_two index_two
      content) where
  -- What an operation of a heap keeps: the data and the other index.
  abbrev core_one : E → D × Option ℕ
  core_one e = (content e, index_two e)

  abbrev core_two : E → D × Option ℕ
  core_two e = (content e, index_one e)

  abbrev on_one : D × Option ℕ → D × Option ℕ → Bool
  on_one a b = before_one a.0 b.0

  abbrev on_two : D × Option ℕ → D × Option ℕ → Bool
  on_two a b = before_two a.0 b.0

  one-IsEntry : IsEntry less_one set_one on_one core_one index_one
  one-IsEntry = record {
    core_set = λ e k. let c = shared.content_one e k in let i = shared.two_one e k in cc;
    index_set = shared.one_one;
    less_core = shared.less_one_lem;
  }

  two-IsEntry : IsEntry less_two set_two on_two core_two index_two
  two-IsEntry = record {
    core_set = λ e k. let c = shared.content_two e k in let i = shared.one_two e k in cc;
    index_set = shared.two_two;
    less_core = shared.less_two_lem;
  }

  one-IsOrder : IsOrder on_one
  one-IsOrder = record {
    flip = λ a b h. shared.order_one.flip a.0 b.0 h;
    trans = λ a b c h g. shared.order_one.trans a.0 b.0 c.0 h g;
  }

  two-IsOrder : IsOrder on_two
  two-IsOrder = record {
    flip = λ a b h. shared.order_two.flip a.0 b.0 h;
    trans = λ a b c h g. shared.order_two.trans a.0 b.0 c.0 h g;
  }

  -- The heaps are valid and have the entries of s and of u.
  pub record IsPair (s u : ℕ → Type 0) (x : Both E) : Type 0 where
    pub valid_one : IsValid core_one index_one on_one (heap_one x)
    pub valid_two : IsValid core_two index_two on_two (heap_two x)
    pub in_one : (r : ℕ) → Has core_one index_one on_one (heap_one x) r ↔ s r
    pub in_two : (r : ℕ) → Has core_two index_two on_two (heap_two x) r ↔ u r

  abbrev pub Keeps : Both E → Both E → Type 0
  Keeps x x' = (r : ℕ) → content (x'.entries r) ≡ content (x.entries r)

  -- An operation of the one heap.
  one_step :
      (s s' u : ℕ → Type 0) (x : Both E) (h : Heap E)
      → IsPair s u x
      → IsValid core_one index_one on_one h
      → ((r : ℕ) → core_one (h.entries r) ≡ core_one (x.entries r))
      → ((r : ℕ) → Has core_one index_one on_one h r ↔ s' r)
      → IsPair s' u (with_one x h) × Keeps x (with_one x h)
  one_step s s' u x h p valid same has = (
    record {
      valid_one = valid;
      valid_two =
          IsValid-agrees core_two index_two on_two (heap_two x) (heap_two (with_one x h)) refl
            (λ k. refl) (λ r m. ap (λ c. c.1) (same r))
            (λ q r m w. let a = ap (λ c. c.0) (same q) in let b = ap (λ c. c.0) (same r) in cc)
            p.valid_two;
      in_one = has;
      in_two = p.in_two;
    },
    λ r. ap (λ c. c.0) (same r),
  )

  two_step :
      (s u u' : ℕ → Type 0) (x : Both E) (h : Heap E)
      → IsPair s u x
      → IsValid core_two index_two on_two h
      → ((r : ℕ) → core_two (h.entries r) ≡ core_two (x.entries r))
      → ((r : ℕ) → Has core_two index_two on_two h r ↔ u' r)
      → IsPair s u' (with_two x h) × Keeps x (with_two x h)
  two_step s u u' x h p valid same has = (
    record {
      valid_one =
          IsValid-agrees core_one index_one on_one (heap_one x) (heap_one (with_two x h)) refl
            (λ k. refl) (λ r m. ap (λ c. c.1) (same r))
            (λ q r m w. let a = ap (λ c. c.0) (same q) in let b = ap (λ c. c.0) (same r) in cc)
            p.valid_one;
      valid_two = valid;
      in_one = p.in_one;
      in_two = has;
    },
    λ r. ap (λ c. c.0) (same r),
  )

  pub push_one_lem :
      (s u : ℕ → Type 0) (x : Both E) (a : ℕ)
      → IsPair s u x
      → ¬ s a
      → IsPair (With s a) u (push_one less_one set_one x a)
        × Keeps x (push_one less_one set_one x a)
  unfolding push_one
  push_one_lem s u x a p new =
      let f = p.in_one in
      let k =
        heap_push-Pushed core_one index_one on_one less_one set_one one-IsEntry one-IsOrder
          (heap_one x) a p.valid_one (λ h. new ((f a).0 h)) in
      one_step s (With s a) u x (heap_push less_one set_one (heap_one x) a) p k.valid k.same (λ r. (
        λ h. elim ((k.has r).0 h) [ inl m ↦ inl ((f r).0 m) | inr e ↦ inr e ],
        λ w. (k.has r).1 (elim w [ inl m ↦ inl ((f r).1 m) | inr e ↦ inr e ]),
      ))

  pub push_two_lem :
      (s u : ℕ → Type 0) (x : Both E) (a : ℕ)
      → IsPair s u x
      → ¬ u a
      → IsPair s (With u a) (push_two less_two set_two x a)
        × Keeps x (push_two less_two set_two x a)
  unfolding push_two
  push_two_lem s u x a p new =
      let f = p.in_two in
      let k =
        heap_push-Pushed core_two index_two on_two less_two set_two two-IsEntry two-IsOrder
          (heap_two x) a p.valid_two (λ h. new ((f a).0 h)) in
      two_step s u (With u a) x (heap_push less_two set_two (heap_two x) a) p k.valid k.same (λ r. (
        λ h. elim ((k.has r).0 h) [ inl m ↦ inl ((f r).0 m) | inr e ↦ inr e ],
        λ w. (k.has r).1 (elim w [ inl m ↦ inl ((f r).1 m) | inr e ↦ inr e ]),
      ))

  pub remove_one_lem :
      (s u : ℕ → Type 0) (x : Both E) (a : ℕ)
      → IsPair s u x
      → s a
      → (x' : Both E) × (remove_one less_one set_one x (index_one (x.entries a)) ≡ some (x', a))
        × IsPair (Without s a) u x'
        × Keeps x x'
  unfolding remove_one
  remove_one_lem s u x a p m =
      let f = p.in_one in
      let (h, done, k) =
        heap_remove_lem core_one index_one on_one less_one set_one one-IsEntry one-IsOrder
          (heap_one x) a p.valid_one ((f a).1 m) in
      let (p', keeps) = one_step s (Without s a) u x h p k.valid k.same (λ r. (
        λ w. let (v, n) = (k.has r).0 w in ((f r).0 v, n),
        λ (v, n). (k.has r).1 ((f r).1 v, n),
      )) in
      (with_one x h, ap (and_one x) done, p', keeps)

  pub remove_two_lem :
      (s u : ℕ → Type 0) (x : Both E) (a : ℕ)
      → IsPair s u x
      → u a
      → (x' : Both E) × (remove_two less_two set_two x (index_two (x.entries a)) ≡ some (x', a))
        × IsPair s (Without u a) x'
        × Keeps x x'
        × (x'.one.len ≡ x.one.len)
  unfolding remove_two
  remove_two_lem s u x a p m =
      let f = p.in_two in
      let (h, done, k) =
        heap_remove_lem core_two index_two on_two less_two set_two two-IsEntry two-IsOrder
          (heap_two x) a p.valid_two ((f a).1 m) in
      let (p', keeps) = two_step s u (Without u a) x h p k.valid k.same (λ r. (
        λ w. let (v, n) = (k.has r).0 w in ((f r).0 v, n),
        λ (v, n). (k.has r).1 ((f r).1 v, n),
      )) in
      (with_two x h, ap (and_two x) done, p', keeps, refl)

  pub pop_one_lem :
      (s u : ℕ → Type 0) (x : Both E)
      → IsPair s u x
      → 0 < x.one.len
      → (x' : Both E) × (a : ℕ) × (pop_one less_one set_one x ≡ some (x', a))
        × s a
        × IsPair (Without s a) u x'
        × Keeps x x'
        × (x.one.len ≡ x'.one.len + 1)
        × ((r : ℕ) → s r → Leq before_one (content (x.entries a)) (content (x.entries r)))
  unfolding pop_one
  pop_one_lem s u x p some_left =
      let f = p.in_one in
      let (h, a, done, k, least) =
        heap_pop_lem core_one index_one on_one less_one set_one one-IsEntry one-IsOrder (heap_one x)
          p.valid_one some_left in
      let (p', keeps) = one_step s (Without s a) u x h p k.valid k.same (λ r. (
        λ w. let (v, n) = (k.has r).0 w in ((f r).0 v, n),
        λ (v, n). (k.has r).1 ((f r).1 v, n),
      )) in
      (
        with_one x h,
        a,
        ap (and_one x) done,
        (f a).0 k.member,
        p',
        keeps,
        k.shorter,
        λ r m. least r ((f r).1 m),
      )

  -- An entry that is in no heap can change.
  pub change_lem :
      (s u : ℕ → Type 0) (x : Both E) (a : ℕ) (e : E)
      → IsPair s u x
      → ¬ s a
      → ¬ u a
      → IsPair s u (record x { entries = update x.entries a e })
  change_lem s u x a e p out_one out_two =
      let other = λ (r : ℕ) (n : r ≢ a). update_other x.entries a e r n in
      record {
        valid_one =
            IsValid-agrees core_one index_one on_one (heap_one x)
              (heap_one (record x { entries = update x.entries a e })) refl (λ k. refl)
              (λ r m. ap index_one (other r (λ h. out_one (subst s h ((p.in_one r).0 m)))))
              (λ q r m w.
                let eq = other q (λ h. out_one (subst s h ((p.in_one q).0 m))) in
                let er = other r (λ h. out_one (subst s h ((p.in_one r).0 w))) in cc)
              p.valid_one;
        valid_two =
            IsValid-agrees core_two index_two on_two (heap_two x)
              (heap_two (record x { entries = update x.entries a e })) refl (λ k. refl)
              (λ r m. ap index_two (other r (λ h. out_two (subst u h ((p.in_two r).0 m)))))
              (λ q r m w.
                let eq = other q (λ h. out_two (subst u h ((p.in_two q).0 m))) in
                let er = other r (λ h. out_two (subst u h ((p.in_two r).0 w))) in cc)
              p.valid_two;
        in_one = p.in_one;
        in_two = p.in_two;
      }

  -- Members are what counts.
  pub IsPair-iff :
      (s u s' u' : ℕ → Type 0) (x : Both E)
      → ((r : ℕ) → s r ↔ s' r)
      → ((r : ℕ) → u r ↔ u' r)
      → IsPair s u x
      → IsPair s' u' x
  IsPair-iff s u s' u' x f g p = record {
    valid_one = p.valid_one;
    valid_two = p.valid_two;
    in_one = λ r. (λ h. (f r).0 ((p.in_one r).0 h), λ m. (p.in_one r).1 ((f r).1 m));
    in_two = λ r. (λ h. (g r).0 ((p.in_two r).0 h), λ m. (p.in_two r).1 ((g r).1 m));
  }
