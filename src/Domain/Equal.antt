-- ===== src/Domain/Equal.antt =====
-- The comparison with `==` and `!=` of the records of domain.py that an approval compares.
use changesafe.Prelude.{
  ℕ, Bool, true, false, ◌&&◌, Option, none, some, List, [], ◌∷◌, String, ◌=s=◌, ◌==◌,
}
use changesafe.Domain.Analysis.{
  RiskBand, RiskFactor, RiskResult, ImpactCategory, ImpactSeverity, EvidenceConfidence,
  ImpactAssessment, ValidationCheck, ValidationReport, ApprovalBlocker,
}

abbrev pub same_bool : Bool → Bool → Bool
same_bool true b = b
same_bool false true = false
same_bool false false = true

-- `left == right` of texts that may be missing
abbrev pub same_text : Option String → Option String → Bool
same_text none none = true
same_text (some a) (some b) = a =s= b
same_text _ _ = false

unfoldable pub same_list {ℓ} : {A : Type ℓ} → (A → A → Bool) → List A → List A → Bool
same_list same [] [] = true
same_list same [] (b ∷ bs) = false
same_list same (a ∷ rest) [] = false
same_list same (a ∷ rest) (b ∷ others) = same a b && same_list same rest others

band_number : RiskBand → ℕ
band_number RiskBand.low = 0
band_number RiskBand.medium = 1
band_number RiskBand.high = 2
band_number RiskBand.critical = 3

category_number : ImpactCategory → ℕ
category_number ImpactCategory.data_integrity = 0
category_number ImpactCategory.privacy_compliance = 1
category_number ImpactCategory.operational_continuity = 2
category_number ImpactCategory.trust_decision_quality = 3
category_number ImpactCategory.financial_exposure = 4
category_number ImpactCategory.organizational_impact = 5

severity_number : ImpactSeverity → ℕ
severity_number ImpactSeverity.critical = 0
severity_number ImpactSeverity.high = 1
severity_number ImpactSeverity.medium = 2
severity_number ImpactSeverity.low = 3
severity_number ImpactSeverity.informational = 4

confidence_number : EvidenceConfidence → ℕ
confidence_number EvidenceConfidence.direct = 0
confidence_number EvidenceConfidence.inferred = 1
confidence_number EvidenceConfidence.unavailable = 2

same_factor : RiskFactor → RiskFactor → Bool
unfolding same_list
same_factor a b =
    a.code =s= b.code
    && a.label =s= b.label
    && a.points == b.points
    && same_list ◌=s=◌ a.evidence_urns b.evidence_urns

unfoldable pub same_risk : RiskResult → RiskResult → Bool
unfolding same_list same_factor band_number
same_risk a b =
    a.score == b.score
    && band_number a.band == band_number b.band
    && same_list same_factor a.factors b.factors
    && a.recommended_strategy =s= b.recommended_strategy

same_impact : ImpactAssessment → ImpactAssessment → Bool
unfolding same_list category_number severity_number confidence_number
same_impact a b =
    category_number a.category == category_number b.category
    && a.label =s= b.label
    && severity_number a.severity == severity_number b.severity
    && confidence_number a.confidence == confidence_number b.confidence
    && a.summary =s= b.summary
    && same_text a.qualifier b.qualifier
    && a.basis =s= b.basis
    && same_list ◌=s=◌ a.evidence_urns b.evidence_urns

unfoldable pub same_impacts : List ImpactAssessment → List ImpactAssessment → Bool
unfolding same_list same_impact
same_impacts = same_list same_impact

same_check : ValidationCheck → ValidationCheck → Bool
same_check a b =
    a.code =s= b.code
    && a.label =s= b.label
    && same_bool a.is_passed b.is_passed
    && same_bool a.blocking b.blocking
    && a.detail =s= b.detail

unfoldable pub same_validation : ValidationReport → ValidationReport → Bool
unfolding same_list same_check
same_validation a b = same_bool a.is_passed b.is_passed && same_list same_check a.checks b.checks

same_blocker : ApprovalBlocker → ApprovalBlocker → Bool
same_blocker a b = a.code =s= b.code && a.message =s= b.message && same_bool a.retryable b.retryable

unfoldable pub same_blockers : List ApprovalBlocker → List ApprovalBlocker → Bool
unfolding same_list same_blocker
same_blockers = same_list same_blocker
