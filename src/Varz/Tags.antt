-- ===== src/Varz/Tags.antt =====
-- varz/varz.go: the metrics by tag, of which a call changes one.
use gorouter.Base.{
  ap, sym, subst, ◌∙◌, ◌≡◌, inl, inr, List, ◌∷◌, Option, none, some, Bool, true, false, Text, arith,
  text_eq, text_eq_iff, Map, map_put, get-put, Bool-cases, if◌then◌else◌,
}
use gorouter.Varz.{HttpMetric, http_metric}
use gorouter.Varz.Calls.{Call, is_tagged, tags_are, Tallies}
use gorouter.Varz.Tallies.{count_not_picked, durations_not_picked, same-Tallies}

http_metric-put :
    (t u : Text) (m : HttpMetric) (x : Map HttpMetric)
    → http_metric (map_put t m x) u ≡ (if text_eq t u then m else http_metric x u)
unfolding http_metric
http_metric-put t u m x = let e = get-put t u m x in ground (arith, e)

module _ (cs : List Call) (c : Call) where
  -- Of the metrics by tag, a call changes the one whose tag it has.
  pub component_lem :
      (touch : HttpMetric → HttpMetric) (tag : Option Text) (x : Map HttpMetric)
      → ((u : Text) → is_tagged u c ≡ tags_are u tag)
      → ((picks : Call → Bool) (m : HttpMetric)
          → picks c ≡ true
          → Tallies picks cs m
          → Tallies picks (c ∷ cs) (touch m))
      → ((u : Text) → Tallies (is_tagged u) cs (http_metric x u))
      → (u : Text)
      → Tallies
          (is_tagged u)
          (c ∷ cs)
          (http_metric (elim tag [ none ↦ x | some t ↦ map_put t (touch (http_metric x t)) x ]) u)
  component_lem touch none x tagged step old u =
      same-Tallies (is_tagged u) cs (http_metric x u) c
        (λ test. count_not_picked (is_tagged u) test c cs (tagged u))
        (durations_not_picked (is_tagged u) c cs (tagged u)) (old u)
  component_lem touch (some t) x tagged step old u =
      let e = http_metric-put t u (touch (http_metric x t)) x in
      elim (Bool-cases (text_eq t u)) [
        | inl same ↦
            let t_is : t ≡ u = (text_eq_iff t u).0 same in
            let e' : http_metric (map_put t (touch (http_metric x t)) x) u
                ≡ touch (http_metric x t) =
              ground (arith, e, same) in
            subst (λ m. Tallies (is_tagged u) (c ∷ cs) m)
              (sym (e' ∙ ap (λ v. touch (http_metric x v)) t_is))
              (step (is_tagged u) (http_metric x u) (tagged u ∙ same) (old u))
        | inr other ↦
            let e' : http_metric (map_put t (touch (http_metric x t)) x) u ≡ http_metric x u =
              ground (arith, e, other) in
            subst (λ m. Tallies (is_tagged u) (c ∷ cs) m) (sym e')
              (same-Tallies (is_tagged u) cs (http_metric x u) c
                (λ test. count_not_picked (is_tagged u) test c cs (tagged u ∙ other))
                (durations_not_picked (is_tagged u) c cs (tagged u ∙ other)) (old u))
      ]

  -- A call that has no tag.
  pub untagged_lem :
      (x : Map HttpMetric)
      → ((u : Text) → is_tagged u c ≡ false)
      → ((u : Text) → Tallies (is_tagged u) cs (http_metric x u))
      → (u : Text) → Tallies (is_tagged u) (c ∷ cs) (http_metric x u)
  untagged_lem x no_tag old u =
      same-Tallies (is_tagged u) cs (http_metric x u) c
        (λ test. count_not_picked (is_tagged u) test c cs (no_tag u))
        (durations_not_picked (is_tagged u) c cs (no_tag u)) (old u)
