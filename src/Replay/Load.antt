-- ===== src/Replay/Load.antt =====
-- `_load_payload`, `load`, `discover_schema` and `writeback`. The files, the digest and the decoding of
-- the payload are arguments.
use changesafe.Prelude.{
  Bool, false, Option, none, some, List, [], ◌∷◌, String, ◌=s=◌, Codes, find?, if◌then◌else◌,
  Result, ok, err, guard, ◌>>=◌, ◌>>◌,
}
use changesafe.Domain.Change.{ChangeRequest}
use changesafe.Domain.Context.{
  ContextBundle, ContextProvenance, SchemaCatalog, snapshot, require_unique_fields,
  require_snapshot_hash,
}
use changesafe.Domain.Publication.{PublicationMode, DataHubReceipt}
use changesafe.Replay.Catalog.{RecordedFieldContext, RecordedDataHubCatalog, fields_match_schema}

-- the cases of `ContextLoadError`, and other exceptions
pub data ReplayError : Type 0 where
  unavailable checksum_mismatch not_json contract_violated : ReplayError
  unknown_asset unknown_field other_exception : ReplayError

-- what the decoding gives: no JSON, no catalogue, or one before its validator runs
pub data Decoded : Type 0 where
  no_json no_catalog : Decoded
  catalog : RecordedDataHubCatalog → Decoded

-- the text of a checksum file as its words, or the exception of reading it: an `OSError`, or a
-- `UnicodeDecodeError`
pub data ChecksumFile : Type 0 where
  no_file not_ascii : ChecksumFile
  words_of : List String → ChecksumFile

-- the two files; `none` is an `OSError`
pub record SnapshotFiles : Type 0 where
  pub raw : Option Codes
  pub checksum : ChecksumFile

pub record Replay : Type 0 where
  pub files : SnapshotFiles
  pub sha256 : Codes → String
  pub decode : Codes → Decoded

abbrev pub or_raise : {A : Type 0} → ReplayError → Option A → Result ReplayError A
or_raise e none = err e
or_raise e (some a) = ok a

-- `except OSError`, which no `UnicodeDecodeError` is
abbrev pub read_checksum : ChecksumFile → Result ReplayError (List String)
read_checksum no_file = err unavailable
read_checksum not_ascii = err other_exception
read_checksum (words_of words) = ok words

-- `.split()[0]`; an empty file raises `IndexError`
abbrev pub first_word : List String → Result ReplayError String
first_word [] = err other_exception
first_word (word ∷ words) = ok word

abbrev pub validated : Decoded → Result ReplayError RecordedDataHubCatalog
validated no_json = err not_json
validated no_catalog = err contract_violated
validated (catalog c) = if fields_match_schema c then ok c else err contract_violated

unfoldable pub load_payload : Replay → Result ReplayError (RecordedDataHubCatalog × String)
unfolding fields_match_schema
load_payload r = do
  raw ← or_raise unavailable r.files.raw
  words ← read_checksum r.files.checksum
  expected ← first_word words
  guard (r.sha256 raw =s= expected) checksum_mismatch
  c ← validated (r.decode raw)
  ok (c, r.sha256 raw)

abbrev pub has_key : String → String × RecordedFieldContext → Bool
has_key name f = f.0 =s= name

-- `model_copy(update={"mode": ContextMode.SNAPSHOT, "snapshot_hash": digest})`
abbrev pub recorded_provenance : RecordedDataHubCatalog → String → ContextProvenance
recorded_provenance c digest = record (c.provenance) {
  mode = snapshot;
  snapshot_hash = some digest;
}

unfoldable pub bundle_of :
    RecordedDataHubCatalog → String → ChangeRequest → RecordedFieldContext → ContextBundle
bundle_of c digest change recorded = record {
  target_urn = c.target_urn;
  target_name = c.target_name;
  target_domain = c.target_domain;
  field = change.field;
  field_type = recorded.field_type;
  schema_fields = c.schema_fields;
  upstream_assets = recorded.upstream_assets;
  downstream_assets = recorded.downstream_assets;
  owners = c.owners;
  field_tags = recorded.field_tags;
  glossary_terms = recorded.glossary_terms;
  usage_tier = recorded.usage_tier;
  query_count = recorded.query_count;
  evidence = recorded.evidence;
  provenance = recorded_provenance c digest;
}

-- the `ValueError` of a bundle that its constructor refuses is no `ContextLoadError`
unfoldable pub load : Replay → ChangeRequest → Result ReplayError ContextBundle
unfolding load_payload bundle_of require_snapshot_hash
load r change = do
  payload ← load_payload r
  guard (payload.0.target_urn =s= change.asset_urn) unknown_asset
  field ← or_raise unknown_field (find? (has_key change.field) payload.0.fields)
  guard (require_snapshot_hash (bundle_of payload.0 payload.1 change field.1)) other_exception
  ok (bundle_of payload.0 payload.1 change field.1)

unfoldable pub catalog_of : RecordedDataHubCatalog → String → SchemaCatalog
catalog_of c digest = record {
  target_urn = c.target_urn;
  target_name = c.target_name;
  schema_fields = c.schema_fields;
  provenance = recorded_provenance c digest;
}

unfoldable pub discover_schema : Replay → String → Result ReplayError SchemaCatalog
unfolding load_payload catalog_of require_unique_fields
discover_schema r asset_urn = do
  payload ← load_payload r
  guard (payload.0.target_urn =s= asset_urn) unknown_asset
  guard (require_unique_fields (catalog_of payload.0 payload.1)) other_exception
  ok (catalog_of payload.0 payload.1)

-- the receipt of `writeback`, which it also reports
unfoldable pub writeback : ChangeRequest → DataHubReceipt
writeback change = record {
  mode = PublicationMode.preview;
  label = "NOT WRITTEN — SNAPSHOT MODE";
  document_urn = none;
  updated_urns = change.asset_urn ∷ [];
  mutations = [];
  idempotent_reuse = false;
}
