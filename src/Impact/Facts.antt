-- ===== src/Impact/Facts.antt =====
-- What `classify_impacts` of impact.py computes of the change and its context before it builds the
-- assessments.
use changesafe.Prelude.{
  ℕ, Bool, true, false, ◌||◌, Option, none, some, List, [], ◌∷◌, ◌++◌, String, Codes, codes,
  casefold, contains, elem_codes, ◌=s=◌, is_truthy, length, any, filter, map, format, distinct,
  if◌then◌else◌,
}
use changesafe.Domain.Change.{ChangeRequest, ChangeOperation, rename, remove, type_change}
use changesafe.Domain.Context.{
  ContextBundle, AffectedAsset, EvidenceRef, Owner, UsageTier, unused, low, medium, high,
}

-- `list(dict.fromkeys(value for value in values if value))`
unfoldable pub unique : List String → List String
unique values = distinct (filter is_truthy values)

-- an optional text in a formatted text
abbrev shown : Option String → String
shown none = "None"
shown (some s) = s

-- `change.old_type or context.field_type`
abbrev or_text : Option String → String → String
or_text none default = default
or_text (some s) default = if is_truthy s then s else default

change_action_in : ChangeOperation → ChangeRequest → ContextBundle → String
unfolding format
change_action_in rename change context =
    format ("Renaming " ∷ change.field ∷ " to " ∷ shown change.new_field ∷ [])
change_action_in type_change change context = format (
    "Changing "
    ∷ change.field
    ∷ " from "
    ∷ or_text change.old_type context.field_type
    ∷ " to "
    ∷ shown change.new_type
    ∷ [])
change_action_in remove change context = format ("Removing " ∷ change.field ∷ [])

unfoldable pub change_action : ChangeRequest → ContextBundle → String
unfolding change_action_in
change_action change context = change_action_in change.operation change context

any_marker : List Codes → String → Bool
unfolding contains casefold
any_marker markers value = any (λ marker. contains marker (casefold value)) markers

abbrev business_types : List Codes
business_types = map codes ("dashboard" ∷ "report" ∷ "semantic_model" ∷ "view" ∷ "explore" ∷ [])

is_business_asset : AffectedAsset → Bool
unfolding any_marker elem_codes casefold
is_business_asset asset =
    elem_codes (casefold asset.entity_type) business_types
    || any_marker (map codes ("powerbi" ∷ "looker" ∷ "tableau" ∷ [])) asset.urn

given_domains : List (Option String) → List String
given_domains [] = []
given_domains (none ∷ ds) = given_domains ds
given_domains (some d ∷ ds) = let rest = given_domains ds in if is_truthy d then d ∷ rest else rest

abbrev pub usage_name : UsageTier → String
usage_name unused = "none"
usage_name low = "low"
usage_name medium = "medium"
usage_name high = "high"

abbrev pub usage_is_high : UsageTier → Bool
usage_is_high high = true
usage_is_high _ = false

abbrev pub usage_is_unused : UsageTier → Bool
usage_is_unused unused = true
usage_is_unused _ = false

abbrev pub usage_supports : UsageTier → Bool
usage_supports medium = true
usage_supports high = true
usage_supports _ = false

-- what the source computes before it builds the assessments
pub record Facts : Type 0 where
  pub target : String
  pub action : String
  pub downstream_urns : List String
  pub governed_urns : List String
  pub usage_urns : List String
  pub owner_urns : List String
  pub pii : Bool
  pub authoritative : Bool
  pub business_urns : List String
  pub domain_count : ℕ
  pub usage_tier : UsageTier

unfoldable pub facts_of : ChangeRequest → ContextBundle → Facts
unfolding unique change_action any_marker is_business_asset given_domains distinct
facts_of change context =
    let governed = unique (context.field_tags ++ context.glossary_terms) in
    let business = filter is_business_asset context.downstream_assets in
    record {
      target = context.target_urn;
      action = change_action change context;
      downstream_urns = unique (map (λ (a : AffectedAsset). a.urn) context.downstream_assets);
      governed_urns = governed;
      usage_urns = unique (
          map (λ (e : EvidenceRef). e.urn)
            (filter (λ (e : EvidenceRef). e.kind =s= "usage") context.evidence));
      owner_urns = unique (map (λ (o : Owner). o.urn) context.owners);
      pii = any (any_marker (map codes ("pii" ∷ "personal" ∷ "privacy" ∷ []))) governed;
      authoritative = any (any_marker (codes "authoritative" ∷ [])) context.field_tags;
      business_urns = map (λ (a : AffectedAsset). a.urn) business;
      domain_count = length (
          distinct (
            given_domains (
              context.target_domain
              ∷ map (λ (a : AffectedAsset). a.domain) context.downstream_assets)));
      usage_tier = context.usage_tier;
    }
