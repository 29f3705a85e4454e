-- ===== src/Examples/Snapshots.antt =====
-- A snapshot with one field.
use changesafe.Prelude.{◌≡◌, refl, ok, err, none, some, [], ◌∷◌, String}
use changesafe.Domain.Context.{ContextBundle, low}
use changesafe.Replay.Catalog.{RecordedDataHubCatalog}
use changesafe.Replay.Load.{words_of, Replay, catalog, load}
use changesafe.Replay.Loaded.{IsRecorded, load-IsRecorded}
use changesafe.Examples.Data.{rename_change, orders, urn}

abbrev recorded : RecordedDataHubCatalog
recorded = record {
  target_urn = urn;
  target_name = "orders";
  target_domain = some "Sales";
  schema_fields = orders.schema_fields;
  owners = orders.owners;
  fields =
      (
        "customer_id",
        record {
          field_type = "decimal(10)";
          upstream_assets = [];
          downstream_assets = orders.downstream_assets;
          field_tags = [];
          glossary_terms = [];
          usage_tier = low;
          query_count = 3;
          evidence = [];
        },
      )
      ∷ [];
  provenance = orders.provenance;
}

abbrev replay : Replay
replay = record {
  files = record { raw = some (1 ∷ []); checksum = words_of ("digest" ∷ []) };
  sha256 = λ raw. "digest";
  decode = λ raw. catalog recorded;
}

abbrev bundle : ContextBundle
bundle = elim (load replay rename_change) [ ok b ↦ b | err e ↦ orders ]

loaded : load replay rename_change ≡ ok bundle
unfolding load changesafe.Prelude.◌=s=◌ changesafe.SqlTypes.Parts.normalized_parts
loaded = refl

load-IsRecorded_example : IsRecorded replay rename_change bundle
load-IsRecorded_example = load-IsRecorded replay rename_change bundle loaded
