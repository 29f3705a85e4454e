-- ===== src/Impact/Evidence.antt =====
-- What every list of impacts shows: its categories, its evidence, and no severity without evidence.
use changesafe.Prelude.{
  ◌≡◌, refl, true, List, [], ◌∷◌, ◌++◌, map, String, arith, =s=_refl, elem, is_distinct,
  distinct-is_distinct, elem-distinct, is_truthy,
}
use changesafe.Domain.Change.{ChangeRequest}
use changesafe.Domain.Context.{ContextBundle}
use changesafe.Domain.Analysis.{
  ImpactAssessment, ImpactCategory, data_integrity, privacy_compliance, operational_continuity,
  trust_decision_quality, financial_exposure, organizational_impact, ImpactSeverity, unavailable,
}
use changesafe.Impact.Classify.{
  integrity_impact, privacy_impact, operational_impact, trust_impact, financial_impact,
  organizational_impact_of, classify_impacts,
}
use changesafe.Impact.Facts.{Facts, facts_of, unique}

-- Nothing is listed twice, and the target stands among the evidence.
abbrev IsEvidenced : String → List String → Type 0
IsEvidenced target urns = (is_distinct urns ≡ true) × (elem target urns ≡ true)

-- A classification with no evidence behind it is informational.
abbrev pub IsGrounded : String → ImpactAssessment → Type 0
IsGrounded target a =
    (is_distinct a.evidence_urns ≡ true)
    × (elem target a.evidence_urns ≡ true)
    × (a.confidence ≡ unavailable → a.severity ≡ ImpactSeverity.informational)

abbrev pub AllGrounded : String → List ImpactAssessment → Type 0
AllGrounded target [] = Unit
AllGrounded target (a ∷ as') = IsGrounded target a × AllGrounded target as'

unique_head :
    (target : String) (l : List String)
    → is_truthy target ≡ true
    → IsEvidenced target (unique (target ∷ l))
unfolding unique elem
unique_head target l t = (distinct-is_distinct _, rw elem-distinct (rw t (rw =s=_refl refl)))

single-IsEvidenced : (target : String) → IsEvidenced target (target ∷ [])
unfolding elem is_distinct
single-IsEvidenced target = (refl, rw =s=_refl refl)

module _ (f : Facts) (given : is_truthy f.target ≡ true) where
  integrity-IsGrounded : IsGrounded f.target (integrity_impact f)
  unfolding integrity_impact
  integrity-IsGrounded =
      let (d, e) = unique_head f.target f.downstream_urns given in (d, e, λ h. cc)

  privacy-IsGrounded : IsGrounded f.target (privacy_impact f)
  unfolding privacy_impact
  privacy-IsGrounded =
      let (d, e) = unique_head f.target f.governed_urns given in (d, e, λ h. ground arith)

  operational-IsGrounded : IsGrounded f.target (operational_impact f)
  unfolding operational_impact
  operational-IsGrounded =
      let (d, e) = unique_head f.target (f.usage_urns ++ f.downstream_urns) given in
      (d, e, λ h. ground arith)

  trust-IsGrounded : IsGrounded f.target (trust_impact f)
  unfolding trust_impact
  trust-IsGrounded =
      let (d, e) = unique_head f.target f.business_urns given in (d, e, λ h. ground arith)

  financial-IsGrounded : IsGrounded f.target (financial_impact f)
  unfolding financial_impact
  financial-IsGrounded =
      let (d, e) = unique_head f.target (f.usage_urns ++ f.business_urns) given in
      let (d', e') = single-IsEvidenced f.target in (ground arith, ground arith, λ h. ground arith)

  organizational-IsGrounded : IsGrounded f.target (organizational_impact_of f)
  unfolding organizational_impact_of
  organizational-IsGrounded =
      let (d, e) = unique_head f.target (f.owner_urns ++ f.downstream_urns) given in
      (d, e, λ h. ground arith)

-- The six categories come in a fixed order.
abbrev pub categories : List ImpactCategory
categories =
    data_integrity ∷ privacy_compliance ∷ operational_continuity ∷ trust_decision_quality
    ∷ financial_exposure ∷ organizational_impact ∷ []

-- For a named target the classification gives the six categories in their fixed order; every
-- assessment lists the target among evidence without repetitions, and one whose evidence is
-- unavailable is only informational.
pub classify_impacts_grounded :
    (change : ChangeRequest) (context : ContextBundle)
    → is_truthy context.target_urn ≡ true
    → (map (λ (a : ImpactAssessment). a.category) (classify_impacts change context) ≡ categories)
      × AllGrounded context.target_urn (classify_impacts change context)
unfolding classify_impacts integrity_impact privacy_impact operational_impact trust_impact
    financial_impact organizational_impact_of
classify_impacts_grounded change context t =
    let f = facts_of change context in
    (
      refl,
      (
        integrity-IsGrounded f t,
        (
          privacy-IsGrounded f t,
          (
            operational-IsGrounded f t,
            (trust-IsGrounded f t, (financial-IsGrounded f t, (organizational-IsGrounded f t, tt))),
          ),
        ),
      ),
    )
