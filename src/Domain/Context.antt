-- ===== src/Domain/Context.antt =====
-- The metadata records of domain.py, from `EvidenceRef` to `ContextBundle`. Two fields of
-- `ContextBundle` that no modelled code reads, `structured_properties` and `tool_evidence`, are
-- left out.
use changesafe.Prelude.{
  ℕ, Bool, true, false, not, ◌&&◌, Option, none, some, List, String, casefold, is_distinct_codes,
  is_truthy, map,
}

-- A moment in microseconds since the epoch, in UTC where `aware` holds (`tzinfo` and its offset are
-- given); of a naive value the reading of its clock.
pub record Datetime : Type 0 where
  pub instant : ℕ
  pub aware : Bool

pub data ContextMode : Type 0 where
  live snapshot : ContextMode

pub data LineagePrecision : Type 0 where
  exact_field endpoint_field dataset_level : LineagePrecision

pub record EvidenceRef : Type 0 where
  pub urn : String
  pub kind : String
  pub label : String
  pub path : List String

pub record AffectedAsset : Type 0 where
  pub urn : String
  pub name : String
  pub entity_type : String
  pub domain : Option String
  pub field : Option String
  pub is_executive : Bool
  pub is_production_ml : Bool
  pub lineage_degree : Option ℕ
  pub lineage_path : List String
  pub lineage_precision : LineagePrecision

pub record Owner : Type 0 where
  pub urn : String
  pub name : String
  pub ownership_type : String

pub record SchemaField : Type 0 where
  pub name : String
  pub data_type : String
  pub nullable : Bool

pub record ContextProvenance : Type 0 where
  pub mode : ContextMode
  pub retrieved_at : Datetime
  pub adapter_version : String
  pub snapshot_hash : Option String

pub data UsageTier : Type 0 where
  unused low medium high : UsageTier

pub record SchemaCatalog : Type 0 where
  pub target_urn : String
  pub target_name : String
  pub schema_fields : List SchemaField
  pub provenance : ContextProvenance

pub record ContextBundle : Type 0 where
  pub target_urn : String
  pub target_name : String
  pub target_domain : Option String
  pub field : String
  pub field_type : String
  pub schema_fields : List SchemaField
  pub upstream_assets : List AffectedAsset
  pub downstream_assets : List AffectedAsset
  pub owners : List Owner
  pub field_tags : List String
  pub glossary_terms : List String
  pub usage_tier : UsageTier
  pub query_count : ℕ
  pub evidence : List EvidenceRef
  pub provenance : ContextProvenance

-- `require_unique_fields`
unfoldable pub require_unique_fields : SchemaCatalog → Bool
unfolding is_distinct_codes casefold
require_unique_fields catalog =
    is_distinct_codes (map (λ (f : SchemaField). casefold f.name) catalog.schema_fields)

abbrev pub is_snapshot : ContextMode → Bool
is_snapshot snapshot = true
is_snapshot live = false

abbrev pub is_given : Option String → Bool
is_given none = false
is_given (some s) = is_truthy s

-- `require_snapshot_hash`
unfoldable pub require_snapshot_hash : ContextBundle → Bool
require_snapshot_hash c =
    not (is_snapshot c.provenance.mode && not (is_given c.provenance.snapshot_hash))
