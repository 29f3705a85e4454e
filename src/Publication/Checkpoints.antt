-- ===== src/Publication/Checkpoints.antt =====
-- The checkpoints of a live publication that fails: what the ports have answered before the failure, as
-- said without the store.
use changesafe.Prelude.{
  not, ◌&&◌, Option, none, some, List, [], ◌∷◌, String, is_some, Result, ok, err, if◌then◌else◌,
}
use changesafe.Domain.Publication.{DataHubReceipt, PublicationLedgerEntry}
use changesafe.Config.Settings.{datahub_writeback_enabled}
use changesafe.Publication.Intent.{is_written, destination_mismatch}
use changesafe.Publication.Ports.{
  Service, PublicationError, GitHubPublisher, GitHubOutcome, answered, github_error, crashed,
  DecisionWriteback,
}
use changesafe.Publication.Review.{Plan}
use changesafe.Publication.Writeback.{decision_of}
use changesafe.Publication.Live.{enabled_publisher}
use changesafe.Publication.Rules.{stamped}

pub record Checkpoints : Type 0 where
  pub branch : Option String
  pub pull_request_url : Option String
  pub writeback : Option DataHubReceipt

-- those of an entry
abbrev pub checkpoints_of : PublicationLedgerEntry → Checkpoints
checkpoints_of entry = record {
  branch = entry.branch;
  pull_request_url = entry.pull_request_url;
  writeback = entry.writeback;
}

-- the last receipt that the port has reported
abbrev pub last_reported : Option DataHubReceipt → List DataHubReceipt → Option DataHubReceipt
last_reported o [] = o
last_reported o (r ∷ rs) = last_reported (some r) rs

abbrev pub after_reports : PublicationLedgerEntry → List DataHubReceipt → Checkpoints
after_reports entry reported = record (checkpoints_of entry) {
  writeback = last_reported entry.writeback reported;
}

-- with the writeback of a decision, if there is one
abbrev pub decided :
    Service → PublicationLedgerEntry → Result PublicationError DecisionWriteback → Checkpoints
decided p entry (ok decision) = after_reports entry (p.writeback decision entry.writeback).reported
decided p entry (err e) = checkpoints_of entry

abbrev pub datahub_reached : Service → Plan → PublicationLedgerEntry → Checkpoints
datahub_reached p plan entry =
    if entry.datahub_required && not (is_written entry.writeback)
    then (if datahub_writeback_enabled p.settings
        then decided p entry (decision_of plan entry)
        else checkpoints_of entry)
    else checkpoints_of entry

-- with the answer of `ensure_pull_request`
abbrev pub pull_request_reached :
    Service → Plan → PublicationLedgerEntry → GitHubOutcome → Checkpoints
pull_request_reached p plan entry (answered url) =
    datahub_reached p plan (stamped p (record entry { pull_request_url = some url }))
pull_request_reached p plan entry (github_error code retryable) = checkpoints_of entry
pull_request_reached p plan entry crashed = checkpoints_of entry

abbrev pub requested :
    Service → GitHubPublisher → Plan → PublicationLedgerEntry → String → Checkpoints
requested p publisher plan entry branch =
    pull_request_reached p plan entry
      (publisher.ensure_pull_request branch plan.run.request plan.analysis.artifacts)

-- with the answer of `ensure_branch`
abbrev pub branch_reached :
    Service → GitHubPublisher → Plan → PublicationLedgerEntry → GitHubOutcome → Checkpoints
branch_reached p publisher plan entry (answered branch) =
    requested p publisher plan (stamped p (record entry { branch = some branch })) branch
branch_reached p publisher plan entry (github_error code retryable) = checkpoints_of entry
branch_reached p publisher plan entry crashed = checkpoints_of entry

-- a branch of an earlier approval is taken up again
abbrev pub resumed :
    Service → GitHubPublisher → Plan → PublicationLedgerEntry → Option String → Checkpoints
resumed p publisher plan entry (some branch) = requested p publisher plan entry branch
resumed p publisher plan entry none =
    branch_reached p publisher plan entry
      (publisher.ensure_branch plan.run.run_id plan.run.request plan.analysis.artifacts)

abbrev pub published_through :
    Service → Plan → PublicationLedgerEntry → Option GitHubPublisher → Checkpoints
published_through p plan entry none = checkpoints_of entry
published_through p plan entry (some publisher) = resumed p publisher plan entry entry.branch

abbrev pub github_reached : Service → Plan → PublicationLedgerEntry → Checkpoints
github_reached p plan entry =
    if entry.github_required && not (is_some entry.pull_request_url)
    then published_through p plan entry (enabled_publisher p)
    else datahub_reached p plan entry

-- the checkpoints of a live publication of an entry
unfoldable pub reached : Service → Plan → PublicationLedgerEntry → Checkpoints
unfolding decision_of destination_mismatch
reached p plan entry =
    if destination_mismatch p.settings plan.run entry
    then checkpoints_of entry
    else github_reached p plan entry
