-- ===== src/Risk/Score.antt =====
-- `band_for`, `_base_factor`, `_is_governed` and `score_change` of risk.py.
use changesafe.Prelude.{
  ℕ, ◌*◌, Bool, true, false, not, ◌&&◌, ◌||◌, Option, none, some, List, [], ◌∷◌, ◌++◌, String,
  Codes, codes, show, format, distinct, casefold, upper, contains, elem_codes, ◌=s=◌, is_truthy,
  is_empty, leb, ltb, length, sum, min, any, filter, map, if◌then◌else◌, Result, ok, err, ◌>>=◌,
  ◌>>◌, guard,
}
use changesafe.SqlTypes.Parts.{TypeError}
use changesafe.SqlTypes.Canonicalize.{SqlType, canonical_sql_type}
use changesafe.SqlTypes.Kind.{
  ChangeKind, no_op, widening, incompatible, same_type, type_change_kind,
}
use changesafe.Domain.Change.{ChangeRequest, ChangeOperation, rename, remove, type_change}
use changesafe.Domain.Context.{ContextBundle, AffectedAsset, EvidenceRef, Owner, UsageTier, high}
use changesafe.Domain.Analysis.{RiskFactor, RiskResult, RiskBand}

-- the `ValueError`s
pub data RiskError : Type 0 where
  score_out_of_range old_type_mismatch no_op_change bad_type : RiskError

abbrev accountable_owner_types : List Codes
accountable_owner_types = map codes ("DATA_OWNER" ∷ "BUSINESS_OWNER" ∷ "OWNER" ∷ [])

abbrev governance_markers : List Codes
governance_markers = map codes ("pii" ∷ "confidential" ∷ "governed" ∷ "sensitive" ∷ [])

unfoldable pub band_for : ℕ → Result RiskError RiskBand
band_for score =
    if leb score 100
    then (if ltb score 30
        then ok RiskBand.low
        else if ltb score 60
        then ok RiskBand.medium
        else if ltb score 80
        then ok RiskBand.high
        else ok RiskBand.critical)
    else err score_out_of_range

abbrev factor : String → String → ℕ → List String → RiskFactor
factor code label points evidence = record {
  code = code;
  label = label;
  points = points;
  evidence_urns = evidence;
}

-- `value or default` of an optional text
abbrev pub or_text : Option String → String → String
or_text none default = default
or_text (some s) default = if is_truthy s then s else default

unfoldable pub widening_factor : String → ChangeKind → Result RiskError RiskFactor
widening_factor urn no_op = err no_op_change
widening_factor urn widening =
    ok (factor "base_compatible_type_change" "Compatible widening type change" 15 (urn ∷ []))
widening_factor urn incompatible =
    ok (factor "base_type_change" "Narrowing or incompatible type change" 35 (urn ∷ []))

abbrev pub lift : {A : Type 0} → Result TypeError A → Result RiskError A
lift (ok a) = ok a
lift (err e) = err bad_type

-- `change.old_type is not None and old != current`
abbrev pub differs : Option String → SqlType → SqlType → Bool
differs none old current = false
differs (some s) old current = not (same_type old current)

unfoldable pub type_factor : ChangeRequest → String → Result RiskError RiskFactor
unfolding widening_factor
type_factor change current_type = do
  current ← lift (canonical_sql_type current_type)
  old ← lift (canonical_sql_type (or_text change.old_type current_type))
  guard (not (differs change.old_type old current)) old_type_mismatch
  kind ← lift (type_change_kind current_type (or_text change.new_type ""))
  widening_factor change.asset_urn kind

unfoldable pub base_factor_in :
    ChangeOperation → ChangeRequest → String → Result RiskError RiskFactor
unfolding type_factor
base_factor_in rename change current_type =
    ok (factor "base_rename" "Column rename" 25 (change.asset_urn ∷ []))
base_factor_in remove change current_type =
    ok (factor "base_removal" "Column removal" 40 (change.asset_urn ∷ []))
base_factor_in type_change change current_type = type_factor change current_type

unfoldable pub base_factor : ChangeRequest → String → Result RiskError RiskFactor
unfolding base_factor_in
base_factor change current_type = base_factor_in change.operation change current_type

unfoldable pub is_governed : ContextBundle → Bool
unfolding contains casefold
is_governed context =
    any (λ value. any (λ marker. contains marker (casefold value)) governance_markers)
      (context.field_tags ++ context.glossary_terms)

abbrev urns_of : List AffectedAsset → List String
urns_of assets = map (λ (a : AffectedAsset). a.urn) assets

-- `values or [default]`
abbrev pub or_single : List String → String → List String
or_single [] default = default ∷ []
or_single (s ∷ ss) default = s ∷ ss

abbrev evidence_of : String → ContextBundle → List String
evidence_of kind context =
    or_single
      (map (λ (e : EvidenceRef). e.urn)
        (filter (λ (e : EvidenceRef). e.kind =s= kind) context.evidence))
      context.target_urn

-- `if test: factors.append(factor)`
abbrev pub append_if : Bool → RiskFactor → List RiskFactor
append_if true f = f ∷ []
append_if false f = []

unfoldable pub downstream_factor : List AffectedAsset → List RiskFactor
unfolding show format
downstream_factor downstream = append_if (not (is_empty downstream)) (
    factor "downstream_assets" (format (show (length downstream) ∷ " downstream assets" ∷ []))
      (min (length downstream * 5) 25) (urns_of downstream))

is_executive_asset : AffectedAsset → Bool
unfolding elem_codes casefold
is_executive_asset asset =
    asset.is_executive
    || elem_codes (casefold asset.entity_type) (codes "dashboard" ∷ codes "executive_report" ∷ [])

unfoldable pub executive_factor : List AffectedAsset → List RiskFactor
unfolding is_executive_asset
executive_factor downstream =
    let executive = filter is_executive_asset downstream in
    append_if (not (is_empty executive)) (
      factor "executive_downstream" "Dashboard or executive report downstream" 15
        (urns_of executive))

unfoldable pub production_ml_factor : List AffectedAsset → List RiskFactor
production_ml_factor downstream =
    let production_ml = filter (λ (a : AffectedAsset). a.is_production_ml) downstream in
    append_if (not (is_empty production_ml)) (
      factor "production_ml_downstream" "Production ML asset downstream" 15 (urns_of production_ml))

unfoldable pub governed_factor : ContextBundle → List RiskFactor
governed_factor context = append_if (is_governed context) (
    factor "governed_field" "Governed, confidential, or PII field" 10
      (evidence_of "governance" context))

abbrev pub tier_is_high : UsageTier → Bool
tier_is_high high = true
tier_is_high _ = false

unfoldable pub usage_factor : ContextBundle → List RiskFactor
usage_factor context =
    append_if (tier_is_high context.usage_tier)
      (factor "high_usage" "High query usage" 10 (evidence_of "usage" context))

-- the text of an optional one that is given and not empty
abbrev pub given : Option String → List String
given none = []
given (some s) = if is_truthy s then s ∷ [] else []

unfoldable pub domains_of : List AffectedAsset → List String
domains_of [] = []
domains_of (a ∷ assets) = given a.domain ++ domains_of assets

-- the set of domains of the downstream assets and of the target
unfoldable pub domains : ContextBundle → List String
unfolding domains_of
domains context = distinct (domains_of context.downstream_assets ++ given context.target_domain)

-- `asset.domain and asset.domain != context.target_domain`
abbrev is_foreign : Option String → Option String → Bool
is_foreign target none = false
is_foreign none (some s) = is_truthy s
is_foreign (some t) (some s) = is_truthy s && not (s =s= t)

unfoldable pub cross_domain_factor : ContextBundle → List RiskFactor
cross_domain_factor context = append_if (ltb 1 (length (domains context))) (
    factor "cross_domain" "Cross-domain impact" 10 (
      or_single
        (urns_of (
          filter (λ (a : AffectedAsset). is_foreign context.target_domain a.domain)
            context.downstream_assets))
        context.target_urn))

unfoldable pub has_accountable_owner : List Owner → Bool
unfolding elem_codes upper
has_accountable_owner owners =
    any (λ (o : Owner). elem_codes (upper (codes o.ownership_type)) accountable_owner_types) owners

unfoldable pub owner_factor : ContextBundle → List RiskFactor
owner_factor context =
    append_if (not (has_accountable_owner context.owners))
      (factor "missing_accountable_owner" "Missing accountable owner" 10 (context.target_urn ∷ []))

unfoldable pub context_factors : ContextBundle → List RiskFactor
context_factors context =
    downstream_factor context.downstream_assets
    ++ (executive_factor context.downstream_assets
        ++ (production_ml_factor context.downstream_assets
            ++ (governed_factor context
                ++ (usage_factor context
                    ++ (cross_domain_factor context ++ owner_factor context)))))

abbrev pub total_points : List RiskFactor → ℕ
total_points factors = sum (map (λ (f : RiskFactor). f.points) factors)

unfoldable pub strategy_for : RiskBand → String
strategy_for RiskBand.low = "direct_change_with_tests"
strategy_for RiskBand.medium = "reviewed_migration"
strategy_for RiskBand.high = "two_phase_compatibility_migration"
strategy_for RiskBand.critical = "two_phase_compatibility_migration"

unfoldable pub score_change : ChangeRequest → ContextBundle → Result RiskError RiskResult
unfolding context_factors
score_change change context = do
  base ← base_factor change context.field_type
  let factors = base ∷ context_factors context
  let score = min (total_points factors) 100
  band ← band_for score
  ok (record {
    score = score;
    band = band;
    factors = factors;
    recommended_strategy = strategy_for band;
  })
