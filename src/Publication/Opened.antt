-- ===== src/Publication/Opened.antt =====
-- How the stages of GitHub end.
use changesafe.Prelude.{
  sym, subst, true, false, not, ◌&&◌, Option, none, some, String, is_some, Result,
}
use changesafe.Domain.Publication.{PublicationReceipt, PublicationLedgerEntry}
use changesafe.Store.States.{RunState, publishing}
use changesafe.Publication.Ports.{
  Service, World, PublicationError, note, ensure_branch_call, ensure_pull_request_call,
  GitHubPublisher, GitHubOutcome, answered, github_error, crashed,
}
use changesafe.Publication.Review.{Plan}
use changesafe.Publication.Ends.{Step}
use changesafe.Publication.Live.{
  after_pull_request, pull_request_stage, after_branch_saved, after_branch, branch_stage,
  enabled_publisher, publisher_stage, github_stage,
}
use changesafe.Publication.Checkpoints.{
  Checkpoints, datahub_reached, pull_request_reached, requested, branch_reached, resumed,
  published_through, github_reached,
}
use changesafe.Publication.Rules.{stamped}
use changesafe.Publication.Ready.{Ready, save-Ready, save-next}
use changesafe.Publication.Settled.{IsSettled, if-Settled, fail-Settled, datahub-Settled}

module _ (p : Service) (plan : Plan) (patch : String) (start : RunState) where
  abbrev Ends : String → Checkpoints → Step PublicationReceipt → World → Type 0
  Ends key c m w = IsSettled plan.run.run_id key start c (m w)

  after_pull_request-Settled :
      (entry : PublicationLedgerEntry) (outcome : GitHubOutcome) (w : World)
      → Ready entry plan.run.run_id publishing w
      → Ends entry.idempotency_key
          (pull_request_reached p plan entry outcome)
          (after_pull_request p plan entry patch outcome)
          w
  unfolding after_pull_request
  after_pull_request-Settled entry (answered url) w ready =
      let next = record entry { pull_request_url = some url } in
      save-Ready
        (IsSettled plan.run.run_id entry.idempotency_key start
          (datahub_reached p plan (stamped p next)))
        p plan.run.run_id next publishing _ w ready
        (λ t ready1 got. datahub-Settled p plan patch start (stamped p next) t ready1)
  after_pull_request-Settled entry (github_error code retryable) w ready =
      fail-Settled p plan patch start entry code _ retryable w ready
  after_pull_request-Settled entry crashed w ready =
      fail-Settled p plan patch start entry _ _ true w ready

  pull_request-Settled :
      (publisher : GitHubPublisher) (entry : PublicationLedgerEntry) (branch : String) (w : World)
      → Ready entry plan.run.run_id publishing w
      → Ends entry.idempotency_key
          (requested p publisher plan entry branch)
          (pull_request_stage p publisher plan entry patch branch)
          w
  unfolding pull_request_stage
  pull_request-Settled publisher entry branch w ready =
      after_pull_request-Settled entry _ (note (ensure_pull_request_call branch) w) ready

  after_branch-Settled :
      (publisher : GitHubPublisher) (entry : PublicationLedgerEntry) (outcome : GitHubOutcome)
      (w : World)
      → Ready entry plan.run.run_id publishing w
      → Ends entry.idempotency_key
          (branch_reached p publisher plan entry outcome)
          (after_branch p publisher plan entry patch outcome)
          w
  unfolding after_branch
  after_branch-Settled publisher entry (answered branch) w ready =
      let next = record entry { branch = some branch } in
      let (t, h, ready1) = save-next p next plan.run.run_id publishing w ready in
      subst
        (λ (x : Result PublicationError PublicationLedgerEntry × World).
          Ends entry.idempotency_key (requested p publisher plan (stamped p next) branch)
            (after_branch_saved p publisher plan entry patch branch x.0) x.1)
        (sym h) (pull_request-Settled publisher (stamped p next) branch t ready1)
  after_branch-Settled publisher entry (github_error code retryable) w ready =
      fail-Settled p plan patch start entry code _ retryable w ready
  after_branch-Settled publisher entry crashed w ready =
      fail-Settled p plan patch start entry _ _ true w ready

  branch-Settled :
      (publisher : GitHubPublisher) (entry : PublicationLedgerEntry) (branch : Option String)
      (w : World)
      → Ready entry plan.run.run_id publishing w
      → Ends entry.idempotency_key
          (resumed p publisher plan entry branch)
          (branch_stage p publisher plan entry patch branch)
          w
  unfolding branch_stage
  branch-Settled publisher entry (some branch) w ready =
      pull_request-Settled publisher entry branch w ready
  branch-Settled publisher entry none w ready =
      after_branch-Settled publisher entry _ (note (ensure_branch_call plan.run.run_id) w) ready

  publisher-Settled :
      (entry : PublicationLedgerEntry) (publisher : Option GitHubPublisher) (w : World)
      → Ready entry plan.run.run_id publishing w
      → Ends entry.idempotency_key
          (published_through p plan entry publisher)
          (publisher_stage p plan entry patch publisher)
          w
  publisher-Settled entry none w ready = fail-Settled p plan patch start entry _ _ false w ready
  publisher-Settled entry (some publisher) w ready =
      branch-Settled publisher entry entry.branch w ready

  pub github-Settled :
      (entry : PublicationLedgerEntry) (w : World)
      → Ready entry plan.run.run_id publishing w
      → Ends entry.idempotency_key (github_reached p plan entry) (github_stage p plan entry patch) w
  unfolding github_stage
  github-Settled entry w ready =
      if-Settled p plan patch start entry.idempotency_key
        (entry.github_required && not (is_some entry.pull_request_url)) _ _ _ _ w
        (publisher-Settled entry (enabled_publisher p) w ready)
        (datahub-Settled p plan patch start entry w ready)
