-- ===== src/Domain/Analysis.antt =====
-- The results of an analysis in domain.py: risk, impact, artifacts, validation, blockers, and the
-- normalisation that `AnalysisResult` applies to itself.
use changesafe.Prelude.{
  ℕ, Bool, false, not, ◌&&◌, Option, List, [], ◌∷◌, ◌++◌, String, ◌=s=◌, all, map, if◌then◌else◌,
}
use changesafe.Domain.Context.{ContextBundle}
use changesafe.Domain.Warehouse.{
  WarehouseValidationResult, status_is_passed, warehouse_passed_evidence_is_complete,
}

pub data RiskBand : Type 0 where
  low medium high critical : RiskBand

pub record RiskFactor : Type 0 where
  pub code : String
  pub label : String
  pub points : ℕ
  pub evidence_urns : List String

pub record RiskResult : Type 0 where
  pub score : ℕ
  pub band : RiskBand
  pub factors : List RiskFactor
  pub recommended_strategy : String

pub data ImpactCategory : Type 0 where
  data_integrity privacy_compliance operational_continuity : ImpactCategory
  trust_decision_quality financial_exposure organizational_impact : ImpactCategory

pub data ImpactSeverity : Type 0 where
  critical high medium low informational : ImpactSeverity

pub data EvidenceConfidence : Type 0 where
  direct inferred unavailable : EvidenceConfidence

pub record ImpactAssessment : Type 0 where
  pub category : ImpactCategory
  pub label : String
  pub severity : ImpactSeverity
  pub confidence : EvidenceConfidence
  pub summary : String
  pub qualifier : Option String
  pub basis : String
  pub evidence_urns : List String

pub record ArtifactFile : Type 0 where
  pub path : String
  pub content : String
  pub sha256 : String

-- `files` in the order of insertion
pub record ArtifactBundle : Type 0 where
  pub files : List (String × ArtifactFile)
  pub manifest_hash : Option String

pub record ValidationCheck : Type 0 where
  pub code : String
  pub label : String
  pub is_passed : Bool
  pub blocking : Bool
  pub detail : String

pub record ValidationReport : Type 0 where
  pub is_passed : Bool
  pub checks : List ValidationCheck

pub record ApprovalBlocker : Type 0 where
  pub code : String
  pub message : String
  pub retryable : Bool

abbrev pub warehouse_evidence_incomplete_blocker : ApprovalBlocker
warehouse_evidence_incomplete_blocker = record {
  code = "WAREHOUSE_EVIDENCE_INCOMPLETE";
  message = "Warehouse validation evidence is incomplete.";
  retryable = false;
}

pub record AnalysisResult : Type 0 where
  pub context : ContextBundle
  pub risk : RiskResult
  pub artifacts : ArtifactBundle
  pub validation : ValidationReport
  pub publication_eligible : Bool
  pub impacts : List ImpactAssessment
  pub warehouse_validation : WarehouseValidationResult
  pub approval_blockers : List ApprovalBlocker

abbrev pub has_code : String → ApprovalBlocker → Bool
has_code code b = b.code =s= code

-- `normalized`: every blocker of the code made canonical, and one added where there is none
unfoldable pub normalized_blockers : List ApprovalBlocker → List ApprovalBlocker
normalized_blockers blockers =
    let canonical = warehouse_evidence_incomplete_blocker in
    let normalized = map (λ b. if has_code canonical.code b then canonical else b) blockers in
    if all (λ b. not (has_code canonical.code b)) normalized
    then normalized ++ canonical ∷ []
    else normalized

-- `normalize_incomplete_warehouse_evidence`
unfoldable pub normalize_incomplete_warehouse_evidence : AnalysisResult → AnalysisResult
unfolding normalized_blockers
normalize_incomplete_warehouse_evidence a =
    if status_is_passed a.warehouse_validation.status
      && not (warehouse_passed_evidence_is_complete a.warehouse_validation)
    then record a {
      approval_blockers = normalized_blockers a.approval_blockers;
      publication_eligible = false;
    }
    else a

pub record PublicError : Type 0 where
  pub code : String
  pub message : String
  pub retryable : Bool
