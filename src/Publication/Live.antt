-- ===== src/Publication/Live.antt =====
-- `_approve_live`: the stages of GitHub. Each stage is one function, which ends with the call of the next.
use changesafe.Prelude.{
  true, false, not, ◌&&◌, Option, none, some, String, is_some, Result, ok, err, if◌then◌else◌,
}
use changesafe.Exec.{◌>>=◌, ◌>>◌}
use changesafe.Domain.Publication.{PublicationReceipt, PublicationLedgerEntry}
use changesafe.Store.States.{publishing}
use changesafe.Store.Runs.{plain}
use changesafe.Config.Settings.{github_publication_enabled}
use changesafe.Publication.Intent.{destination_mismatch}
use changesafe.Publication.Ports.{
  Service, PublicationError, note, GitHubPublisher, GitHubOutcome, answered, github_error, crashed,
  ensure_branch_call, ensure_pull_request_call,
}
use changesafe.Publication.Review.{Plan}
use changesafe.Publication.Ends.{
  Step, save, move_unless, is_publishing, is_publication_failed, fail,
}
use changesafe.Publication.Writeback.{datahub_stage}

-- after the call of `ensure_pull_request`
unfoldable pub after_pull_request :
    Service → Plan → PublicationLedgerEntry → String → GitHubOutcome → Step PublicationReceipt
unfolding datahub_stage fail
after_pull_request p plan entry patch (answered url) = do
  saved ← save p (record entry { pull_request_url = some url })
  datahub_stage p plan saved patch
after_pull_request p plan entry patch (github_error code retryable) =
    fail p plan entry patch code "GitHub publication did not complete." retryable
after_pull_request p plan entry patch crashed =
    fail p plan entry patch "GITHUB_PUBLICATION_FAILED" "GitHub publication did not complete." true

-- the call of `ensure_pull_request` for a branch
unfoldable pub pull_request_stage :
    Service
    → GitHubPublisher
    → Plan
    → PublicationLedgerEntry
    → String
    → String
    → Step PublicationReceipt
unfolding after_pull_request
pull_request_stage p publisher plan entry patch branch w =
    after_pull_request p plan entry patch
      (publisher.ensure_pull_request branch plan.run.request plan.analysis.artifacts)
      (note (ensure_pull_request_call branch) w)

-- the save of the branch stands in the `try` too
abbrev pub after_branch_saved :
    Service
    → GitHubPublisher
    → Plan
    → PublicationLedgerEntry
    → String
    → String
    → Result PublicationError PublicationLedgerEntry
    → Step PublicationReceipt
after_branch_saved p publisher plan entry patch branch (ok saved) =
    pull_request_stage p publisher plan saved patch branch
after_branch_saved p publisher plan entry patch branch (err e) =
    fail p plan entry patch "GITHUB_PUBLICATION_FAILED" "GitHub publication did not complete." true

-- after the call of `ensure_branch`
unfoldable pub after_branch :
    Service
    → GitHubPublisher
    → Plan
    → PublicationLedgerEntry
    → String
    → GitHubOutcome
    → Step PublicationReceipt
unfolding pull_request_stage fail
after_branch p publisher plan entry patch (answered branch) w =
    let (r, t) = save p (record entry { branch = some branch }) w in
    after_branch_saved p publisher plan entry patch branch r t
after_branch p publisher plan entry patch (github_error code retryable) w =
    fail p plan entry patch code "GitHub publication did not complete." retryable w
after_branch p publisher plan entry patch crashed w =
    fail p plan entry patch "GITHUB_PUBLICATION_FAILED" "GitHub publication did not complete." true
      w

unfoldable pub branch_stage :
    Service
    → GitHubPublisher
    → Plan
    → PublicationLedgerEntry
    → String
    → Option String
    → Step PublicationReceipt
unfolding after_branch
branch_stage p publisher plan entry patch (some branch) w =
    pull_request_stage p publisher plan entry patch branch w
branch_stage p publisher plan entry patch none w =
    after_branch p publisher plan entry patch
      (publisher.ensure_branch plan.run.run_id plan.run.request plan.analysis.artifacts)
      (note (ensure_branch_call plan.run.run_id) w)

-- the publisher, if publication is enabled
abbrev pub enabled_publisher : Service → Option GitHubPublisher
enabled_publisher p = if github_publication_enabled p.settings then p.github_publisher else none

abbrev pub publisher_stage :
    Service
    → Plan
    → PublicationLedgerEntry
    → String
    → Option GitHubPublisher
    → Step PublicationReceipt
publisher_stage p plan entry patch none =
    fail p plan entry patch "GITHUB_NOT_CONFIGURED" "GitHub publication is unavailable." false
publisher_stage p plan entry patch (some publisher) =
    branch_stage p publisher plan entry patch entry.branch

-- the first half of `_approve_live`
unfoldable pub github_stage :
    Service → Plan → PublicationLedgerEntry → String → Step PublicationReceipt
unfolding branch_stage datahub_stage fail
github_stage p plan entry patch =
    if entry.github_required && not (is_some entry.pull_request_url)
    then publisher_stage p plan entry patch (enabled_publisher p)
    else datahub_stage p plan entry patch

unfoldable pub approve_live :
    Service → Plan → PublicationLedgerEntry → String → Step PublicationReceipt
unfolding github_stage fail destination_mismatch
approve_live p plan entry patch = do
  move_unless (is_publishing plan.run.state) p plan.run.run_id publishing
      (record (plain "Publishing the approved change and evidence") {
        clear_error = is_publication_failed plan.run.state;
      })
  if destination_mismatch p.settings plan.run entry
      then fail p plan entry patch "PUBLICATION_DESTINATION_MISMATCH"
          "The configured publication destination changed after approval." false
      else github_stage p plan entry patch
