-- ===== src/Store/Scrub.antt =====
-- `_mark_warehouse_evidence_incomplete` of store.py, over evidence that has its declared form, and
-- what a row gives when it is read back.
use changesafe.Prelude.{
  false, not, ◌&&◌, Option, none, some, [], ◌∷◌, ◌++◌, ◌=s=◌, filter, if◌then◌else◌,
}
use changesafe.Domain.Warehouse.{WarehouseCheck, blocked, status_is_passed, status_matches_evidence}
use changesafe.Domain.Analysis.{
  AnalysisResult, has_code, warehouse_evidence_incomplete_blocker,
  normalize_incomplete_warehouse_evidence,
}
use changesafe.Store.Tables.{RunRow}

abbrev pub incomplete_check : WarehouseCheck
incomplete_check = record {
  code = "warehouse_evidence_incomplete";
  label = "Warehouse evidence completeness";
  is_passed = false;
  retryable = false;
  detail = "Warehouse validation evidence is incomplete.";
  observed_count = none;
}

unfoldable pub mark_warehouse_evidence_incomplete : AnalysisResult → AnalysisResult
mark_warehouse_evidence_incomplete a =
    let w = a.warehouse_validation in
    if status_is_passed w.status && not (status_matches_evidence w)
    then record a {
      warehouse_validation = record w {
        status = blocked;
        checks =
            filter (λ (c : WarehouseCheck). not (c.code =s= incomplete_check.code)) w.checks
            ++ incomplete_check ∷ [];
      };
      publication_eligible = false;
      approval_blockers =
          filter (λ b. not (has_code warehouse_evidence_incomplete_blocker.code b))
            a.approval_blockers
          ++ warehouse_evidence_incomplete_blocker ∷ [];
    }
    else a

abbrev pub scrub : Option AnalysisResult → Option AnalysisResult
scrub none = none
scrub (some a) =
    some (normalize_incomplete_warehouse_evidence (mark_warehouse_evidence_incomplete a))

-- `_run_from_row`: the scrubbed analysis, validated again
unfoldable pub run_from_row : RunRow → RunRow
unfolding mark_warehouse_evidence_incomplete
run_from_row r = record r { analysis = scrub r.analysis }
