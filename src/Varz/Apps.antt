-- ===== src/Varz/Apps.antt =====
-- varz/varz.go: what CaptureAppStats does to the two tables of applications.
use gorouter.Base.{
  ap, sym, ◌∙◌, ℕ, ◌≡◌, inl, inr, [], Option, some, true, false, Text, arith, text_eq, text_eq_iff,
  Bool-cases, if◌then◌else◌,
}
use gorouter.Endpoint.{Endpoint, unix}
use gorouter.Stats.ActiveApps.{ActiveApps}
use gorouter.Stats.TopApps.{TopApps, mark_slots}
use gorouter.Stats.ActiveApps.Times
use gorouter.Stats.ActiveApps.Times.{newest}
use gorouter.Stats.TopApps.Counts
use gorouter.Varz.{RealVarz, capture_app_stats}
use gorouter.Varz.Calls.{routing_response, is_of}

-- What a mark of the endpoint's application changes, by application.
marked_lem :
    {A : Type 0} (b : Endpoint) (o : Option ℕ) (s d : ℕ) (u : Text) (was : Text → A) (f : A → A)
    (is : Text → A)
    → text_eq b.application_id [] ≡ false
    → is u ≡ (if text_eq b.application_id u then f (was b.application_id) else was u)
    → is u ≡ (if is_of u (routing_response b o s d) then f (was u) else was u)
marked_lem b o s d u was f is somebody h = elim (Bool-cases (text_eq b.application_id u)) [
  | inl same ↦
      let e : b.application_id ≡ u = (text_eq_iff b.application_id u).0 same in
      h
      ∙ ap (λ v. if v then f (was b.application_id) else was u) same
      ∙ ap (λ v. f (was v)) e
      ∙ sym (ap (λ v. if v then f (was u) else was u) (both somebody same))
  | inr other ↦
      h
      ∙ ap (λ v. if v then f (was b.application_id) else was u) other
      ∙ sym (ap (λ v. if v then f (was u) else was u) (neither other))
]
  where
    both :
        text_eq b.application_id [] ≡ false
        → text_eq b.application_id u ≡ true
        → is_of u (routing_response b o s d) ≡ true
    both p q = ground (arith, p, q)

    neither : text_eq b.application_id u ≡ false → is_of u (routing_response b o s d) ≡ false
    neither q = ground (arith, q)

-- The endpoint has an application, or its calls do not matter to the applications.
pub capture_app_stats-total :
    (b : Endpoint) (o : Option ℕ) (s d : ℕ) (x : RealVarz)
    → Times.IsSound x.active_apps
    → Counts.IsSound x.top_apps
    → (a : ActiveApps) × (p : TopApps) × (capture_app_stats b s x
        ≡ some (record x { active_apps = a; top_apps = p }))
      × Times.IsSound a
      × Counts.IsSound p
      × ((u : Text)
          → Times.last_mark a u ≡ (
              if is_of u (routing_response b o s d)
              then some (newest (Times.last_mark x.active_apps u) (unix s))
              else Times.last_mark x.active_apps u))
      × ((u : Text)
          → Counts.slots_of p u ≡ (
              if is_of u (routing_response b o s d)
              then mark_slots (Counts.slots_of x.top_apps u) (unix s)
              else Counts.slots_of x.top_apps u))
unfolding capture_app_stats
capture_app_stats-total b o s d x sa sp = elim (Bool-cases (text_eq b.application_id [])) [
  | inl nobody ↦ (
    x.active_apps,
    x.top_apps,
    ground (arith, nobody),
    sa,
    sp,
    λ u. ground (arith, nobody),
    λ u. ground (arith, nobody),
  )
  | inr somebody ↦
      let (a, marked, sa', last) = Times.mark-Marks x.active_apps b.application_id (unix s) sa in
      let (p, marked', sp', slots) = Counts.mark-Marks x.top_apps b.application_id (unix s) sp in
      (
        a,
        p,
        ground (arith, somebody, marked, marked'),
        sa',
        sp',
        λ u.
            marked_lem b o s d u (Times.last_mark x.active_apps) (λ v. some (newest v (unix s)))
              (Times.last_mark a) somebody (last u),
        λ u.
            marked_lem b o s d u (Counts.slots_of x.top_apps) (λ v. mark_slots v (unix s))
              (Counts.slots_of p) somebody (slots u),
      )
]
