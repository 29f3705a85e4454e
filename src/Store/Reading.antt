-- ===== src/Store/Reading.antt =====
-- What a row says when it is read back: never an eligible analysis without its evidence.
use changesafe.Prelude.{some-injective, ◌≡◌, refl, subst, ap, true, Option, none, some, arith}
use changesafe.Domain.Warehouse.{
  passed, warehouse_passed_evidence_is_complete, status_matches_evidence,
}
use changesafe.Domain.Analysis.{AnalysisResult, normalize_incomplete_warehouse_evidence}
use changesafe.Store.Tables.{RunRow}
use changesafe.Store.Scrub.{mark_warehouse_evidence_incomplete, run_from_row, scrub}

normalized_evidence :
    (a : AnalysisResult)
    → (normalize_incomplete_warehouse_evidence a).publication_eligible ≡ true
    → (normalize_incomplete_warehouse_evidence a).warehouse_validation.status ≡ passed
    → warehouse_passed_evidence_is_complete
        (normalize_incomplete_warehouse_evidence a).warehouse_validation
      ≡ true
unfolding normalize_incomplete_warehouse_evidence
normalized_evidence a e p = ground arith

IsEvidenced : AnalysisResult → Type 0
IsEvidenced a =
    a.publication_eligible ≡ true
    → a.warehouse_validation.status ≡ passed
    → warehouse_passed_evidence_is_complete a.warehouse_validation ≡ true

scrubbed_evidence :
    (o : Option AnalysisResult) (a : AnalysisResult)
    → scrub o ≡ some a
    → a.publication_eligible ≡ true
    → a.warehouse_validation.status ≡ passed
    → warehouse_passed_evidence_is_complete a.warehouse_validation ≡ true
unfolding IsEvidenced
scrubbed_evidence none a h e p = cc
scrubbed_evidence (some b) a h e p =
    subst IsEvidenced (some-injective h)
      (normalized_evidence (mark_warehouse_evidence_incomplete b)) e p

-- An analysis that is read from a row and is eligible for publication with a passed warehouse
-- validation has complete warehouse evidence, whatever the row holds.
pub run_from_row_evidence :
    (r : RunRow) (a : AnalysisResult)
    → (run_from_row r).analysis ≡ some a
    → a.publication_eligible ≡ true
    → a.warehouse_validation.status ≡ passed
    → warehouse_passed_evidence_is_complete a.warehouse_validation ≡ true
unfolding run_from_row
run_from_row_evidence r a h e p = scrubbed_evidence r.analysis a h e p

scrub_once : (a : AnalysisResult) → scrub (scrub (some a)) ≡ scrub (some a)
unfolding mark_warehouse_evidence_incomplete normalize_incomplete_warehouse_evidence
    status_matches_evidence
scrub_once a = ground arith

scrub_twice : (o : Option AnalysisResult) → scrub (scrub o) ≡ scrub o
scrub_twice none = refl
scrub_twice (some a) = scrub_once a

-- A row that is read from what was read is the same row.
pub run_from_row_once : (r : RunRow) → run_from_row (run_from_row r) ≡ run_from_row r
unfolding run_from_row
run_from_row_once r =
    ap (λ (o : Option AnalysisResult). record r { analysis = o }) (scrub_twice r.analysis)
