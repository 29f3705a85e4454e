-- ===== src/Store/Usage.antt =====
-- `record_llm_usage`, `release_llm_reservation`, `get_llm_usage` and `llm_committed_cost_usd` of
-- `RunStore`; the last in micro-dollars.
use changesafe.Prelude.{
  ℕ, Bool, ◌&&◌, not, Option, none, some, List, [], ◌∷◌, ◌++◌, String, any, find?, is_some,
  if◌then◌else◌, ok,
}
use changesafe.Exec.{Exec}
use changesafe.Domain.Publication.{LlmUsage}
use changesafe.Store.Tables.{UsageRow, RunStore, StoreError, usage_of, committed}
use changesafe.Store.Runs.{usd_to_micros}

-- `UPDATE llm_usage SET … WHERE …`
unfoldable pub update_usage :
    (UsageRow → Bool) → (UsageRow → UsageRow) → List UsageRow → List UsageRow
update_usage p f [] = []
update_usage p f (u ∷ us) = (if p u then f u else u) ∷ update_usage p f us

abbrev pub with_actual : LlmUsage → ℕ → UsageRow → UsageRow
with_actual usage now u = record u {
  actual_microusd = some (usd_to_micros usage.estimated_cost_usd);
  usage = some usage;
  updated_at = now;
}

abbrev usage_row : String → LlmUsage → ℕ → UsageRow
usage_row id usage now = record {
  run_id = id;
  reserved_microusd = 0;
  actual_microusd = some (usd_to_micros usage.estimated_cost_usd);
  usage = some usage;
  created_at = now;
  updated_at = now;
}

unfoldable pub record_llm_usage : String → LlmUsage → ℕ → Exec RunStore StoreError Unit
unfolding update_usage
record_llm_usage id usage now s = (
  ok tt,
  record s {
    llm_usage =
        if any (usage_of id) s.llm_usage
        then update_usage (usage_of id) (with_actual usage now) s.llm_usage
        else s.llm_usage ++ usage_row id usage now ∷ [];
  },
)

abbrev pub is_reserved : String → UsageRow → Bool
is_reserved id u = usage_of id u && not (is_some u.actual_microusd)

abbrev pub released : ℕ → UsageRow → UsageRow
released now u = record u { actual_microusd = some 0; updated_at = now }

unfoldable pub release_llm_reservation : String → ℕ → Exec RunStore StoreError Unit
unfolding update_usage
release_llm_reservation id now s =
    (ok tt, record s { llm_usage = update_usage (is_reserved id) (released now) s.llm_usage })

unfoldable pub get_llm_usage : String → RunStore → Option LlmUsage
get_llm_usage id s = elim (find? (usage_of id) s.llm_usage) [ none ↦ none | some u ↦ u.usage ]

unfoldable pub llm_committed_cost : RunStore → ℕ
llm_committed_cost s = committed s.llm_usage
