-- ===== src/Risk/Monotone.antt =====
-- One more recorded consumer never lowers a score.
use native.Mathlib.Nat.{le_refl}
use mathlib.Core.List.{append_assoc}
use changesafe.Prelude.{
  ◌+◌, ◌≤◌, ◌≡◌, refl, sym, List, [], ◌∷◌, ◌++◌, String, arith, min, length, Option, none, some, ok,
  >>=-eq-ok, subst, distinct, length-distinct-cons, is_truthy, Bool-cases, inl, inr, ok-injective,
}
use changesafe.Domain.Change.{ChangeRequest}
use changesafe.Domain.Context.{ContextBundle, AffectedAsset}
use changesafe.Domain.Analysis.{RiskFactor, RiskResult}
use changesafe.Risk.Score.{
  band_for, base_factor, base_factor_in, context_factors, total_points, score_change, given,
  domains_of, domains, downstream_factor, executive_factor, production_ml_factor, governed_factor,
  is_governed, usage_factor, cross_domain_factor, owner_factor,
}
use changesafe.Risk.Bounds.{band_for_total, scored, score_change-eq-scored}

abbrev pub with_downstream : AffectedAsset → ContextBundle → ContextBundle
with_downstream a context = record context { downstream_assets = a ∷ context.downstream_assets }

module _ (a : AffectedAsset) (ds : List AffectedAsset) where
  downstream_grows : total_points (downstream_factor ds) ≤ total_points (downstream_factor (a ∷ ds))
  unfolding downstream_factor
  downstream_grows = ground arith

  executive_grows : total_points (executive_factor ds) ≤ total_points (executive_factor (a ∷ ds))
  unfolding executive_factor
  executive_grows = ground arith

  production_ml_grows :
      total_points (production_ml_factor ds) ≤ total_points (production_ml_factor (a ∷ ds))
  unfolding production_ml_factor
  production_ml_grows = ground arith

given_grows :
    (o : Option String) (l : List String) → length (distinct l) ≤ length (distinct (given o ++ l))
given_grows none l = le_refl _
given_grows (some s) l = elim (Bool-cases (is_truthy s)) [
  | inl e ↦ rw e (length-distinct-cons s l)
  | inr e ↦ rw e (le_refl _)
]

domains_grow :
    (a : AffectedAsset) (context : ContextBundle)
    → length (domains context) ≤ length (domains (with_downstream a context))
unfolding domains domains_of
domains_grow a context =
    subst (λ (l : List String). length (domains context) ≤ length (distinct l))
      (sym (
        append_assoc (given a.domain) (domains_of context.downstream_assets)
          (given context.target_domain)))
      (given_grows a.domain (domains_of context.downstream_assets ++ given context.target_domain))

cross_domain_grows :
    (a : AffectedAsset) (context : ContextBundle)
    → total_points (cross_domain_factor context)
      ≤ total_points (cross_domain_factor (with_downstream a context))
unfolding cross_domain_factor
cross_domain_grows a context = ground (arith, domains_grow a context)

total_points-append :
    (xs ys : List RiskFactor) → total_points (xs ++ ys) ≡ total_points xs + total_points ys
total_points-append [] ys = omega arith
total_points-append (x ∷ xs) ys = omega (arith, total_points-append xs ys)

-- The points of every factor on its own.
total_points-context_factors :
    (context : ContextBundle)
    → total_points (context_factors context)
      ≡ total_points (downstream_factor context.downstream_assets)
        + (total_points (executive_factor context.downstream_assets)
            + (total_points (production_ml_factor context.downstream_assets)
                + (total_points (governed_factor context)
                    + (total_points (usage_factor context)
                        + (total_points (cross_domain_factor context)
                            + total_points (owner_factor context))))))
unfolding context_factors
total_points-context_factors context = simp total_points-append

-- The factors that do not look at the downstream assets.
other_factors :
    (a : AffectedAsset) (context : ContextBundle)
    → (total_points (governed_factor (with_downstream a context))
        ≡ total_points (governed_factor context))
      × (total_points (usage_factor (with_downstream a context))
          ≡ total_points (usage_factor context))
      × (total_points (owner_factor (with_downstream a context))
          ≡ total_points (owner_factor context))
unfolding governed_factor usage_factor owner_factor is_governed
other_factors a context = (refl, refl, refl)

context_factors_grow :
    (a : AffectedAsset) (context : ContextBundle)
    → total_points (context_factors context)
      ≤ total_points (context_factors (with_downstream a context))
context_factors_grow a context = omega (
  arith,
  total_points-context_factors context,
  total_points-context_factors (with_downstream a context),
  downstream_grows a context.downstream_assets,
  executive_grows a context.downstream_assets,
  production_ml_grows a context.downstream_assets,
  cross_domain_grows a context,
  other_factors a context,
)

-- Where a change is scored, it is also scored with one more downstream asset, and not lower.
pub score_change_mono :
    (change : ChangeRequest) (context : ContextBundle) (a : AffectedAsset) (r : RiskResult)
    → score_change change context ≡ ok r
    → (r' : RiskResult) × (score_change change (with_downstream a context) ≡ ok r')
      × (r.score ≤ r'.score)
unfolding score_change base_factor scored
score_change_mono change context a r h =
    let (base, hb, h₁) =
      >>=-eq-ok (base_factor_in change.operation change context.field_type) _ h in
    let (band, he, h₂) = >>=-eq-ok (band_for _) _ h₁ in
    let wider = with_downstream a context in
    let (band', he') =
      band_for_total (min (total_points (base ∷ context_factors wider)) 100) (omega arith) in
    (
      scored base wider band',
      score_change-eq-scored change wider base band' hb he',
      subst (λ (x : RiskResult). x.score ≤ (scored base wider band').score) (ok-injective h₂)
          (omega (arith, context_factors_grow a context)),
    )
