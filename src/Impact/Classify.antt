-- ===== src/Impact/Classify.antt =====
-- `_unique`, `_change_action` and `classify_impacts` of impact.py.
use changesafe.Prelude.{
  Bool, not, ◌&&◌, ◌||◌, none, some, List, [], ◌∷◌, ◌++◌, is_empty, leb, length, show, format,
  if◌then◌else◌,
}
use changesafe.Domain.Change.{ChangeRequest}
use changesafe.Domain.Context.{ContextBundle}
use changesafe.Domain.Analysis.{
  ImpactAssessment, data_integrity, privacy_compliance, operational_continuity,
  trust_decision_quality, financial_exposure, organizational_impact, ImpactSeverity, direct,
  inferred, unavailable,
}
use changesafe.Impact.Facts.{
  Facts, facts_of, unique, usage_is_high, usage_is_unused, usage_name, usage_supports,
}

unfoldable pub integrity_impact : Facts → ImpactAssessment
unfolding unique show format
integrity_impact f = record {
  category = data_integrity;
  label = "Data integrity";
  severity =
      if f.authoritative || leb 5 (length f.downstream_urns)
      then ImpactSeverity.critical
      else if not (is_empty f.downstream_urns)
      then ImpactSeverity.high
      else ImpactSeverity.medium;
  confidence = direct;
  summary = format (
      f.action
      ∷ " can alter the contract consumed by "
      ∷ show (length f.downstream_urns)
      ∷ " recorded dependencies."
      ∷ []);
  qualifier = none;
  basis =
      "DataHub schema and field-level lineage identify the current field and its recorded consumers.";
  evidence_urns = unique (f.target ∷ f.downstream_urns);
}

unfoldable pub privacy_impact : Facts → ImpactAssessment
unfolding unique format
privacy_impact f = record {
  category = privacy_compliance;
  label = "Privacy & compliance";
  severity = if f.pii then ImpactSeverity.critical else ImpactSeverity.informational;
  confidence = if f.pii then direct else unavailable;
  summary =
      if f.pii
      then format
          (f.action ∷ " affects a field with direct personal-data governance evidence." ∷ [])
      else format (f.action ∷ " has no personal-data classification in this context." ∷ []);
  qualifier = none;
  basis = "DataHub field tags and glossary terms are the sole basis for this classification.";
  evidence_urns = unique (f.target ∷ f.governed_urns);
}

unfoldable pub operational_impact : Facts → ImpactAssessment
unfolding unique show format
operational_impact f = record {
  category = operational_continuity;
  label = "Operational continuity";
  severity =
      if usage_is_high f.usage_tier || leb 3 (length f.downstream_urns)
      then ImpactSeverity.high
      else if not (is_empty f.downstream_urns)
      then ImpactSeverity.medium
      else ImpactSeverity.informational;
  confidence =
      if not (is_empty f.downstream_urns) || not (usage_is_unused f.usage_tier)
      then direct
      else unavailable;
  summary = format (
      f.action
      ∷ " requires a coordinated compatibility window to keep recorded consumers and frequent queries operating."
      ∷ []);
  qualifier = none;
  basis = format (
      (if usage_is_unused f.usage_tier
        then "DataHub has no recorded query usage and "
        else format ("DataHub reports " ∷ usage_name f.usage_tier ∷ " query usage and " ∷ []))
      ∷ show (length f.downstream_urns)
      ∷ " downstream dependencies."
      ∷ []);
  evidence_urns = unique (f.target ∷ (f.usage_urns ++ f.downstream_urns));
}

unfoldable pub trust_impact : Facts → ImpactAssessment
unfolding unique show format
trust_impact f = record {
  category = trust_decision_quality;
  label = "Trust & decision quality";
  severity =
      if f.authoritative && not (is_empty f.business_urns)
      then ImpactSeverity.high
      else if not (is_empty f.business_urns)
      then ImpactSeverity.medium
      else ImpactSeverity.informational;
  confidence = if f.authoritative || not (is_empty f.business_urns) then direct else unavailable;
  summary = format (
      f.action
      ∷ " can make business-facing semantic and analytics assets stale or incomplete if their contracts diverge."
      ∷ []);
  qualifier = none;
  basis = format (
      show (length f.business_urns)
      ∷ " recorded BI or semantic consumers"
      ∷ (if f.authoritative
          then " depend on a field tagged as an authoritative source."
          else " are present in the lineage evidence.")
      ∷ []);
  evidence_urns = unique (f.target ∷ f.business_urns);
}

abbrev pub financial_supported : Facts → Bool
financial_supported f = not (is_empty f.business_urns) && usage_supports f.usage_tier

unfoldable pub financial_impact : Facts → ImpactAssessment
unfolding unique format
financial_impact f = record {
  category = financial_exposure;
  label = "Financial exposure";
  severity = if financial_supported f then ImpactSeverity.high else ImpactSeverity.informational;
  confidence = if financial_supported f then inferred else unavailable;
  summary = format (
      f.action
      ∷ " may disrupt business workflows or require rework, but metadata cannot establish a monetary amount."
      ∷ []);
  qualifier = some (
      if financial_supported f
      then "Potentially high, not quantified"
      else "Not quantified from available metadata");
  basis =
      "This is an inference from usage and business-facing dependencies; no revenue, cost, or transaction values were queried.";
  evidence_urns =
      if financial_supported f
      then unique (f.target ∷ (f.usage_urns ++ f.business_urns))
      else f.target ∷ [];
}

unfoldable pub organizational_impact_of : Facts → ImpactAssessment
unfolding unique show format
organizational_impact_of f = record {
  category = organizational_impact;
  label = "Organizational impact";
  severity =
      if not (is_empty f.owner_urns) && leb 2 f.domain_count
      then ImpactSeverity.high
      else if not (is_empty f.owner_urns)
      then ImpactSeverity.medium
      else ImpactSeverity.informational;
  confidence = if not (is_empty f.owner_urns) then direct else unavailable;
  summary = format (
      f.action
      ∷ " requires accountable coordination across the recorded owners and consuming domains."
      ∷ []);
  qualifier = none;
  basis = format (
      "DataHub records "
      ∷ show (length f.owner_urns)
      ∷ " owners and "
      ∷ show f.domain_count
      ∷ " represented domains."
      ∷ []);
  evidence_urns = unique (f.target ∷ (f.owner_urns ++ f.downstream_urns));
}

unfoldable pub classify_impacts : ChangeRequest → ContextBundle → List ImpactAssessment
unfolding facts_of
classify_impacts change context =
    let f = facts_of change context in
    integrity_impact f
    ∷ privacy_impact f
    ∷ operational_impact f
    ∷ trust_impact f
    ∷ financial_impact f
    ∷ organizational_impact_of f
    ∷ []
