-- ===== src/Replay/Catalog.antt =====
-- The recorded catalogue and its validator `fields_match_schema`. Two fields that no modelled code reads,
-- `structured_properties` and `tool_evidence`, are left out.
use changesafe.Prelude.{
  ℕ, Bool, false, ◌&&◌, Option, none, some, List, String, ◌=s=◌, casefold, elem, is_distinct_codes,
  all, find?, map, ok, err,
}
use changesafe.SqlTypes.Canonicalize.{canonical_sql_type}
use changesafe.SqlTypes.Kind.{same_type}
use changesafe.Domain.Context.{
  AffectedAsset, UsageTier, EvidenceRef, SchemaField, Owner, ContextProvenance,
}

pub record RecordedFieldContext : Type 0 where
  pub field_type : String
  pub upstream_assets : List AffectedAsset
  pub downstream_assets : List AffectedAsset
  pub field_tags : List String
  pub glossary_terms : List String
  pub usage_tier : UsageTier
  pub query_count : ℕ
  pub evidence : List EvidenceRef

pub record RecordedDataHubCatalog : Type 0 where
  pub target_urn : String
  pub target_name : String
  pub target_domain : Option String
  pub schema_fields : List SchemaField
  pub owners : List Owner
  pub fields : List (String × RecordedFieldContext)
  pub provenance : ContextProvenance

abbrev pub has_name : String → SchemaField → Bool
has_name name f = f.name =s= name

-- `canonical_sql_type(left) == canonical_sql_type(right)`, where both are types
unfoldable pub equal_types_of : String → String → Bool
unfolding canonical_sql_type same_type
equal_types_of left right = elim (canonical_sql_type left) [
  | err e ↦ false
  | ok l ↦ elim (canonical_sql_type right) [ err e ↦ false | ok r ↦ same_type l r ]
]

-- the type of a recorded field is that of the schema field of its name
abbrev pub type_matches : Option SchemaField → RecordedFieldContext → Bool
type_matches none recorded = false
type_matches (some f) recorded = equal_types_of recorded.field_type f.data_type

abbrev pub names_of : List SchemaField → List String
names_of fields = map (λ (f : SchemaField). f.name) fields

abbrev pub keys_of : List (String × RecordedFieldContext) → List String
keys_of fields = map (λ (f : String × RecordedFieldContext). f.0) fields

-- `fields_match_schema` accepts the catalogue
unfoldable pub fields_match_schema : RecordedDataHubCatalog → Bool
unfolding is_distinct_codes casefold elem equal_types_of
fields_match_schema c =
    is_distinct_codes (map (λ (f : SchemaField). casefold f.name) c.schema_fields)
    && all (λ name. elem name (names_of c.schema_fields)) (keys_of c.fields)
    && all (λ name. elem name (keys_of c.fields)) (names_of c.schema_fields)
    && all
        (λ (f : String × RecordedFieldContext).
          type_matches (find? (has_name f.0) c.schema_fields) f.1)
        c.fields
