-- ===== src/Publication/Intent.antt =====
-- What a publication is meant to do: `_configured_intent`, `_bind_intent`, `_destination_mismatch` and
-- `_intent_matches_current_configuration` of service.py.
use Prim.Native.Char.{code}
use changesafe.Prelude.{
  Bool, true, false, ◌&&◌, ◌||◌, not, Option, none, some, String, ◌=s=◌, ◌==◌, is_some,
  if◌then◌else◌,
}
use changesafe.Domain.Publication.{
  PublicationMode, live, preview, DataHubReceipt, PublicationReceipt, PublicationLedgerEntry,
}
use changesafe.Domain.Analysis.{AnalysisResult}
use changesafe.Domain.Equal.{same_bool, same_text}
use changesafe.Store.States.{RunState, awaiting_approval}
use changesafe.Store.Tables.{RunRow}
use changesafe.Orchestrator.Stages.{is_live}
use changesafe.Config.Settings.{
  Settings, is_set, github_publication_enabled, datahub_writeback_enabled,
}

abbrev pub mode_is_live : PublicationMode → Bool
mode_is_live live = true
mode_is_live preview = false

-- `entry.publication_mode == "live"`
abbrev pub is_live_intent : Option PublicationMode → Bool
is_live_intent none = false
is_live_intent (some m) = mode_is_live m

abbrev pub is_preview_intent : Option PublicationMode → Bool
is_preview_intent none = false
is_preview_intent (some m) = not (mode_is_live m)

pub record Intent : Type 0 where
  pub publication_mode : PublicationMode
  pub github_required : Bool
  pub datahub_required : Bool
  pub github_repository : Option String
  pub github_base_branch : Option String
  pub datahub_server : Option String
  pub datahub_target_urn : Option String

-- `text.rstrip("/")`
unfoldable pub rstrip_slash : String → String
rstrip_slash String.[] = ""
rstrip_slash (String.◌∷◌ c s) =
    let rest = rstrip_slash s in if code c == b'/' && rest =s= "" then "" else String.◌∷◌ c rest

abbrev pub server_of : Option String → Option String
server_of none = none
server_of (some url) = some (rstrip_slash url)

abbrev pub when {ℓ} : {A : Type ℓ} → Bool → Option A → Option A
when true o = o
when false o = none

abbrev pub analysis_is_live : Option AnalysisResult → Bool
analysis_is_live none = false
analysis_is_live (some a) = is_live a.context.provenance.mode

-- `_external_publication_configured`
unfoldable pub external_publication_configured : Settings → Bool
external_publication_configured s = github_publication_enabled s || datahub_writeback_enabled s

abbrev intent_of : Settings → String → Bool → Intent
intent_of s asset_urn is_live_run =
    let github = is_live_run && github_publication_enabled s in
    let datahub = is_live_run && datahub_writeback_enabled s in
    record {
      publication_mode = if is_live_run then live else preview;
      github_required = github;
      datahub_required = datahub;
      github_repository = when github s.changesafe_github_repository;
      github_base_branch = when github (some s.github_base_branch);
      datahub_server = when datahub (server_of s.datahub_gms_url);
      datahub_target_urn = when datahub (some asset_urn);
    }

unfoldable pub configured_intent : Settings → RunRow → Intent
unfolding external_publication_configured rstrip_slash
configured_intent s run =
    intent_of s run.request.asset_urn
      (analysis_is_live run.analysis && external_publication_configured s)

-- `entry.model_copy(update=intent)`
abbrev pub with_intent : Intent → PublicationLedgerEntry → PublicationLedgerEntry
with_intent i entry = record entry {
  publication_mode = some i.publication_mode;
  github_required = i.github_required;
  datahub_required = i.datahub_required;
  github_repository = i.github_repository;
  github_base_branch = i.github_base_branch;
  datahub_server = i.datahub_server;
  datahub_target_urn = i.datahub_target_urn;
}

abbrev pub has_checkpoint : PublicationLedgerEntry → Bool
has_checkpoint entry =
    is_set entry.branch || is_set entry.pull_request_url || is_some entry.writeback

abbrev pub is_awaiting : RunState → Bool
is_awaiting awaiting_approval = true
is_awaiting _ = false

-- an entry of a receipt that has no intent yet
abbrev pub intent_of_receipt :
    Settings → RunRow → PublicationReceipt → PublicationLedgerEntry → Intent
intent_of_receipt s run receipt entry = record (configured_intent s run) {
  publication_mode = receipt.mode;
  github_required = is_set entry.branch || is_set entry.pull_request_url;
  datahub_required = mode_is_live receipt.writeback.mode;
}

unfoldable pub bind_unbound :
    Settings
    → RunRow
    → PublicationLedgerEntry
    → Option PublicationReceipt
    → Option PublicationLedgerEntry
bind_unbound s run entry (some receipt) =
    some (with_intent (intent_of_receipt s run receipt entry) entry)
bind_unbound s run entry none =
    if has_checkpoint entry || not (is_awaiting run.state)
    then none
    else some (with_intent (configured_intent s run) entry)

-- `_bind_intent`; `none` is its `PublicationStateError`
unfoldable pub bind_intent :
    Settings → RunRow → PublicationLedgerEntry → Option PublicationLedgerEntry
unfolding bind_unbound
bind_intent s run entry = elim entry.publication_mode [
  | some m ↦ some entry
  | none ↦ bind_unbound s run entry entry.receipt
]

abbrev pub is_written : Option DataHubReceipt → Bool
is_written none = false
is_written (some w) = w.label =s= "WRITTEN TO DATAHUB"

unfoldable pub destination_mismatch : Settings → RunRow → PublicationLedgerEntry → Bool
unfolding rstrip_slash
destination_mismatch s run entry =
    entry.github_required
      && not (is_some entry.pull_request_url)
      && not (
          same_text entry.github_repository s.changesafe_github_repository
          && same_text entry.github_base_branch (some s.github_base_branch))
    || entry.datahub_required
      && not (is_written entry.writeback)
      && not (
          same_text entry.datahub_server (server_of s.datahub_gms_url)
          && same_text entry.datahub_target_urn (some run.request.asset_urn))

abbrev same_mode : Option PublicationMode → PublicationMode → Bool
same_mode none m = false
same_mode (some n) m = same_bool (mode_is_live n) (mode_is_live m)

unfoldable pub intent_matches : Settings → RunRow → PublicationLedgerEntry → Bool
intent_matches s run entry =
    let i = configured_intent s run in
    same_mode entry.publication_mode i.publication_mode
    && same_bool entry.github_required i.github_required
    && same_bool entry.datahub_required i.datahub_required
    && same_text entry.github_repository i.github_repository
    && same_text entry.github_base_branch i.github_base_branch
    && same_text entry.datahub_server i.datahub_server
    && same_text entry.datahub_target_urn i.datahub_target_urn
