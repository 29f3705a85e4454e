-- ===== src/Examples/Publications.antt =====
-- Approvals at concrete tables.
use changesafe.Prelude.{◌≡◌, refl, ok, err, true, false, Option, none, some, [], ◌∷◌, String, Codes}
use changesafe.Exec.{final}
use changesafe.Domain.Analysis.{RiskResult, AnalysisResult, ArtifactBundle, ArtifactFile}
use changesafe.Impact.Classify.{classify_impacts}
use changesafe.Risk.Score.{score_change}
use changesafe.Orchestrator.Warehouse.{not_run_fields}
use changesafe.Examples.Analyses.{orchestrator}
use changesafe.Store.States.{
  RunState, loading_context, scoring_risk, generating, validating, awaiting_approval, is_completed,
}
use changesafe.Store.Tables.{RunStore, empty, find_run}
use changesafe.Store.Runs.{Update, plain, new_run}
use changesafe.Store.Steps.{
  Call, create_call, transition_call, save_publication_call, run, IsReachable, at_start, after_call,
}
use changesafe.Store.Refinement.{SpecStep, histories, store_refines}
use changesafe.Config.Settings.{Settings}
use changesafe.Publication.Ports.{Service, World, GitHubPublisher, answered, other_error}
use changesafe.Publication.Review.{Plan, review}
use changesafe.Publication.Approve.{approve, marked_reused}
use changesafe.Publication.Permitted.{IsPermitted, approve-IsPermitted}
use changesafe.Publication.Rules.{Adds}
use changesafe.Publication.Checkpoints.{reached}
use changesafe.Publication.Rules.{stamped}
use changesafe.Publication.Settled.{IsSettled}
use changesafe.Publication.Whole.{approve_settles}
use changesafe.Publication.Reuse.{IsReused, approve_reuses}
use changesafe.Domain.Publication.{PublicationMode, PublicationReceipt, PublicationLedgerEntry}
use changesafe.Examples.Data.{
  entry, rename_change, orders, urn, report, retrieved, rename_result, zero_usd,
}

abbrev artifact_digest : String
artifact_digest = "0123456789abcdef0123456789abcdef0123456789abcdef0123456789abcdef"

abbrev key_digest : String
key_digest = "fedcba9876543210fedcba9876543210fedcba9876543210fedcba9876543210"

abbrev settings : Settings
settings = record {
  datahub_gms_url = none;
  datahub_gms_token = none;
  save_document_restrict_updates = true;
  demo_urn_allowlist = "urn:li:dataset:*";
  github_token = some "token";
  changesafe_github_repository = some "acme/models";
  github_base_branch = "main";
  public_writeback_enabled = false;
  public_pr_enabled = true;
  changesafe_admin_token = some "owner";
  live_evidence_required = true;
  warehouse_validation_enabled = false;
  warehouse_validation_required = false;
  warehouse_evidence_max_age_seconds = 900;
  snowflake_account = none;
  snowflake_user = none;
  snowflake_authenticator = none;
  snowflake_private_key_path = none;
  snowflake_warehouse = none;
  snowflake_database = none;
  snowflake_schema = none;
  snowflake_role = none;
  snowflake_target_relation_allowlist = [];
}

abbrev publisher : GitHubPublisher
publisher = record {
  ensure_branch = λ id change artifacts. answered "changesafe/r1";
  ensure_pull_request = λ branch change artifacts. answered "https://github.com/acme/models/pull/1";
}

abbrev artifact : String → String → String × ArtifactFile
artifact path content = (path, record { path = path; content = content; sha256 = "0123456789" })

abbrev pub artifacts : ArtifactBundle
artifacts = record {
  files =
      artifact "models/marts/orders.sql" "select 1"
      ∷ artifact "models/marts/orders.yml" "version: 2"
      ∷ artifact "tests/assert_orders.sql" "select 1"
      ∷ artifact "migrations/2026-01-01-orders-rename.md" "Rename."
      ∷ artifact "ROLLBACK.md" "Back."
      ∷ artifact "PR_BODY.md" "Body."
      ∷ artifact "changesafe-manifest.json" "{}"
      ∷ [];
  manifest_hash = some artifact_digest;
}

abbrev risk : RiskResult
risk = elim (score_change rename_change orders) [ ok r ↦ r | err e ↦ rename_result ]

abbrev analysed : AnalysisResult
analysed = record {
  context = orders;
  risk = risk;
  artifacts = artifacts;
  validation = report;
  publication_eligible = true;
  impacts = classify_impacts rename_change orders;
  warehouse_validation = not_run_fields orchestrator rename_change;
  approval_blockers = [];
}

abbrev service : Service
service = record {
  settings = settings;
  github_publisher = some publisher;
  writeback = λ decision progress. record { reported = []; ending = other_error };
  verify_artifacts = λ artifacts change context. some report;
  sha256 = λ codes. "digest";
  publication_key = λ change commit hash. key_digest;
  policy_now = retrieved;
  now = 50;
  saved_at = λ entry. 60;
  moment = λ state. 70;
}

abbrev to : RunState → Call
to state = transition_call "r1" state (plain "") 5

-- a run that waits for its approval, by the calls that lead to it
abbrev waiting : RunStore
waiting =
    run (transition_call "r1" awaiting_approval (record (plain "") { analysis = some analysed }) 5)
      (run (to validating) (
        run (to generating) (
          run (to scoring_risk) (
            run (to loading_context)
              (run (create_call "r1" rename_change none zero_usd none 1) empty)))))

waiting-IsReachable : IsReachable waiting
waiting-IsReachable =
    after_call (after_call (after_call (after_call (after_call (after_call at_start _) _) _) _) _) _

abbrev world : World
world = record { store = waiting; external_calls = [] }

-- the same, once its publication is in the ledger
abbrev receipt : PublicationReceipt
receipt = record {
  mode = PublicationMode.live;
  idempotency_key = key_digest;
  artifact_hash = artifact_digest;
  branch = some "changesafe/r1";
  pull_request_url = some "https://github.com/acme/models/pull/1";
  patch = none;
  writeback = record {
    mode = PublicationMode.preview;
    label = "NOT WRITTEN — WRITEBACK DISABLED";
    document_urn = none;
    updated_urns = urn ∷ [];
    mutations = [];
    idempotent_reuse = false;
  };
}

abbrev published_entry : PublicationLedgerEntry
published_entry = record entry {
  idempotency_key = key_digest;
  artifact_hash = artifact_digest;
  publication_mode = some PublicationMode.live;
  receipt = some receipt;
  completed = true;
}

abbrev published_tables : RunStore
published_tables = run (save_publication_call published_entry 6) waiting

published_tables-IsReachable : IsReachable published_tables
published_tables-IsReachable = after_call waiting-IsReachable _

abbrev published_world : World
published_world = record { store = published_tables; external_calls = [] }

abbrev no_plan : Plan
no_plan = record {
  run = new_run "" rename_change none 0;
  analysis = analysed;
  entry = entry;
  reused = none;
}

abbrev plan_at : RunStore → Plan
plan_at s = elim (review service "r1" (some "owner") s) [ ok plan ↦ plan | err e ↦ no_plan ]

abbrev IsReviewed : RunStore → Option PublicationReceipt → Type 0
IsReviewed s reused =
    (review service "r1" (some "owner") s ≡ ok (plan_at s))
    × (is_completed (plan_at s).run.state ≡ false)
    × ((plan_at s).reused ≡ reused)

reviews : IsReviewed waiting none × IsReviewed published_tables (some receipt)
unfolding changesafe.Risk.Score.band_for changesafe.Risk.Score.base_factor
    changesafe.Risk.Score.is_governed changesafe.Risk.Score.downstream_factor
    changesafe.Risk.Score.executive_factor changesafe.Risk.Score.production_ml_factor
    changesafe.Risk.Score.governed_factor changesafe.Risk.Score.usage_factor
    changesafe.Risk.Score.domains changesafe.Risk.Score.cross_domain_factor
    changesafe.Risk.Score.has_accountable_owner changesafe.Risk.Score.owner_factor
    changesafe.Risk.Score.strategy_for changesafe.Risk.Score.score_change
    changesafe.Impact.Classify.integrity_impact changesafe.Impact.Classify.privacy_impact
    changesafe.Impact.Classify.operational_impact changesafe.Impact.Classify.trust_impact
    changesafe.Impact.Classify.financial_impact changesafe.Impact.Classify.organizational_impact_of
    changesafe.Impact.Classify.classify_impacts changesafe.Policy.Evaluate.verification_blockers
    changesafe.Policy.Evaluate.identity_blockers changesafe.Policy.Evaluate.live_blockers
    changesafe.Policy.Evaluate.status_blockers changesafe.Policy.Evaluate.incomplete_blockers
    changesafe.Policy.Evaluate.mismatch_blockers changesafe.Policy.Evaluate.binding_blockers
    changesafe.Policy.Evaluate.stale_blockers changesafe.Policy.Evaluate.evaluate_approval_policy
    changesafe.Domain.Analysis.normalize_incomplete_warehouse_evidence
    changesafe.Domain.Equal.same_risk changesafe.Domain.Equal.same_impacts
    changesafe.Domain.Equal.same_validation changesafe.Domain.Equal.same_blockers
    changesafe.Store.Runs.usd_to_micros changesafe.Store.Runs.in_context
    changesafe.Store.Runs.excess_digits changesafe.Store.Runs.half_even
    changesafe.Store.Runs.create_run changesafe.Store.Runs.insert_run
    changesafe.Store.Runs.insert_into_runs changesafe.Store.Runs.insert_into_events
    changesafe.Store.Runs.insert_into_usage changesafe.Store.Runs.create
    changesafe.Store.Runs.transition changesafe.Store.Tables.find_run
    changesafe.Store.States.allowed changesafe.Store.Scrub.run_from_row changesafe.Store.Steps.run
    changesafe.Store.Ledger.find_publication changesafe.Store.Ledger.get_publication
    changesafe.Store.Ledger.save_publication changesafe.Prelude.◌=s=◌
    changesafe.Config.Settings.github_publication_enabled changesafe.Publication.Review.review
    changesafe.Publication.Intent.configured_intent changesafe.Publication.Intent.bind_intent
    changesafe.Publication.Authorize.authorize changesafe.Domain.Change.same_operation
reviews = ((refl, refl, refl), (refl, refl, refl))

approve-IsPermitted_example :
    Adds
      (IsPermitted service "r1" (some "owner") waiting)
      []
      (final (approve service "r1" (some "owner") world)).external_calls
approve-IsPermitted_example = approve-IsPermitted service "r1" (some "owner") world

approve_settles_example :
    IsSettled "r1"
      (plan_at waiting).entry.idempotency_key
      (plan_at waiting).run.state
      (reached service (plan_at waiting) (stamped service (plan_at waiting).entry))
      (approve service "r1" (some "owner") world)
approve_settles_example =
    approve_settles service "r1" (some "owner") world (plan_at waiting) waiting-IsReachable
      reviews.0.0 reviews.0.1 reviews.0.2

approve_reuses_example :
    IsReused "r1"
      (marked_reused receipt)
      published_world
      (approve service "r1" (some "owner") published_world)
    × ((final (approve service "r1" (some "owner") published_world)).external_calls ≡ [])
approve_reuses_example =
    approve_reuses service "r1" (some "owner") published_world (plan_at published_tables) receipt
      published_tables-IsReachable reviews.1.0 reviews.1.1 reviews.1.2

store_refines_example : SpecStep (histories waiting) (histories published_tables)
store_refines_example =
    store_refines (save_publication_call published_entry 6) waiting waiting-IsReachable
