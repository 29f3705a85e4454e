-- ===== src/Publication/Calls.antt =====
-- Which calls to GitHub and DataHub a live publication makes.
use changesafe.Prelude.{
  ◌≡◌, refl, sym, subst, Bool, true, false, not, ◌&&◌, Option, none, some, List, [], ◌∷◌, String,
  is_some, Result, ok, err, arith,
}
use changesafe.Domain.Publication.{DataHubReceipt, PublicationLedgerEntry}
use changesafe.Config.Settings.{datahub_writeback_enabled}
use changesafe.Publication.Intent.{is_written, destination_mismatch}
use changesafe.Publication.Ports.{
  Service, World, ExternalCall, ensure_branch_call, ensure_pull_request_call, writeback_call,
  GitHubPublisher, GitHubOutcome, answered, github_error, crashed, DecisionWriteback,
  WritebackEnding, written, authorization_error, transport_error, load_error, other_error, note,
  PublicationError,
}
use changesafe.Publication.Review.{Plan}
use changesafe.Publication.Ends.{save, move, move_unless, fail, finish, is_publishing}
use changesafe.Publication.Writeback.{
  decision_of, persist_next, persist_writeback, ending_of, after_writeback, write_back,
  datahub_stage,
}
use changesafe.Publication.Live.{
  after_pull_request, pull_request_stage, after_branch_saved, after_branch, branch_stage,
  enabled_publisher, publisher_stage, github_stage, approve_live,
}
use changesafe.Publication.Rules.{
  Adds, one_added, Kept, bind-Kept, lift-Kept, if-Kept, save-Kept, move_unless-Kept, save-stamped,
}

module _ (P : ExternalCall → Type 0) (calls : List ExternalCall) (p : Service) (plan : Plan)
    (patch : String) where
  pub fail-Kept :
      (entry : PublicationLedgerEntry) (code message : String) (retryable : Bool)
      → Kept P calls (fail p plan entry patch code message retryable)
  unfolding fail
  fail-Kept entry code message retryable =
      bind-Kept P calls (save p _) _ (λ w h. h)
        (λ saved. bind-Kept P calls (move p _ _ _) _ (λ w h. h) (λ row w h. h))

  pub finish-Kept : (entry : PublicationLedgerEntry) → Kept P calls (finish p plan entry patch)
  unfolding finish
  finish-Kept entry =
      bind-Kept P calls (save p _) _ (λ w h. h)
        (λ saved. bind-Kept P calls (move p _ _ _) _ (λ w h. h) (λ row w h. h))

  next-Kept :
      (next : PublicationLedgerEntry → World → (PublicationLedgerEntry × Bool) × World)
      (entry : PublicationLedgerEntry) (r : Result PublicationError PublicationLedgerEntry)
      (t : World)
      → ((saved : PublicationLedgerEntry) → Adds P calls (next saved t).1.external_calls)
      → Adds P calls t.external_calls
      → Adds P calls (persist_next next entry r t).1.external_calls
  next-Kept next entry (ok saved) t holds h = holds saved
  next-Kept next entry (err e) t holds h = h

  persist-Kept :
      (reported : List DataHubReceipt) (entry : PublicationLedgerEntry) (w : World)
      → Adds P calls w.external_calls
      → Adds P calls (persist_writeback p reported entry w).1.external_calls
  unfolding persist_writeback
  persist-Kept [] entry w h = h
  persist-Kept (progress ∷ rest) entry w h =
      let (r, t) = save p (record entry { writeback = some progress }) w in
      next-Kept (persist_writeback p rest) entry r t (λ saved. persist-Kept rest saved t h) h

  after_writeback-Kept :
      (entry : PublicationLedgerEntry) (ending : WritebackEnding)
      → Kept P calls (after_writeback p plan entry patch ending)
  unfolding after_writeback
  after_writeback-Kept entry (written writeback) =
      bind-Kept P calls (save p _) _ (λ w h. h) (λ saved. finish-Kept saved)
  after_writeback-Kept entry authorization_error = fail-Kept entry _ _ false
  after_writeback-Kept entry transport_error = fail-Kept entry _ _ true
  after_writeback-Kept entry load_error = fail-Kept entry _ _ false
  after_writeback-Kept entry other_error = fail-Kept entry _ _ true

  write_back-Kept :
      (entry : PublicationLedgerEntry) (decision : DecisionWriteback)
      → P (writeback_call entry.idempotency_key)
      → Kept P calls (write_back p plan entry patch decision)
  unfolding write_back
  write_back-Kept entry decision permitted w h =
      let call = p.writeback decision entry.writeback in
      let ((last, kept), t) =
        persist_writeback p call.reported entry (note (writeback_call entry.idempotency_key) w) in
      after_writeback-Kept last (ending_of kept call.ending) t (
        persist-Kept call.reported entry (note (writeback_call entry.idempotency_key) w)
          (one_added permitted h))

  -- the writeback is permitted if it is required and not done
  abbrev MayWrite : PublicationLedgerEntry → Type 0
  MayWrite entry =
      entry.datahub_required ≡ true
      → is_written entry.writeback ≡ false
      → P (writeback_call entry.idempotency_key)

  saved-MayWrite :
      (entry saved : PublicationLedgerEntry) (w : World)
      → (save p entry w).0 ≡ ok saved
      → MayWrite entry
      → MayWrite saved
  saved-MayWrite entry saved w e may = subst MayWrite (sym (save-stamped p entry saved w e)) may

  datahub-Kept :
      (entry : PublicationLedgerEntry)
      → MayWrite entry
      → Kept P calls (datahub_stage p plan entry patch)
  unfolding datahub_stage
  datahub-Kept entry may =
      if-Kept P calls (entry.datahub_required && not (is_written entry.writeback)) _ _
        (λ due.
          if-Kept P calls (datahub_writeback_enabled p.settings) _ _
            (λ on. lift-Kept P calls (decision_of plan entry) _ (λ decision e.
              write_back-Kept entry decision (may (ground (arith, due)) (ground (arith, due)))))
            (λ off. fail-Kept entry _ _ false))
        (λ done_already. finish-Kept entry)

  after_pull_request-Kept :
      (entry : PublicationLedgerEntry) (outcome : GitHubOutcome)
      → MayWrite entry
      → Kept P calls (after_pull_request p plan entry patch outcome)
  unfolding after_pull_request
  after_pull_request-Kept entry (answered url) may =
      save-Kept P calls p (record entry { pull_request_url = some url }) _ (datahub-Kept _ may)
  after_pull_request-Kept entry (github_error code retryable) may = fail-Kept entry code _ retryable
  after_pull_request-Kept entry crashed may = fail-Kept entry _ _ true

  pull_request-Kept :
      (publisher : GitHubPublisher) (entry : PublicationLedgerEntry) (branch : String)
      → P (ensure_pull_request_call branch)
      → MayWrite entry
      → Kept P calls (pull_request_stage p publisher plan entry patch branch)
  unfolding pull_request_stage
  pull_request-Kept publisher entry branch permitted may w h =
      after_pull_request-Kept entry _ may (note (ensure_pull_request_call branch) w)
        (one_added permitted h)

  after_branch_saved-Kept :
      (publisher : GitHubPublisher) (entry : PublicationLedgerEntry) (branch : String)
      (r : Result PublicationError PublicationLedgerEntry)
      → P (ensure_pull_request_call branch)
      → ((saved : PublicationLedgerEntry) → r ≡ ok saved → MayWrite saved)
      → Kept P calls (after_branch_saved p publisher plan entry patch branch r)
  after_branch_saved-Kept publisher entry branch (ok saved) permitted may =
      pull_request-Kept publisher saved branch permitted (may saved refl)
  after_branch_saved-Kept publisher entry branch (err e) permitted may = fail-Kept entry _ _ true

  after_branch-Kept :
      (publisher : GitHubPublisher) (entry : PublicationLedgerEntry) (outcome : GitHubOutcome)
      → ((branch : String) → P (ensure_pull_request_call branch))
      → MayWrite entry
      → Kept P calls (after_branch p publisher plan entry patch outcome)
  unfolding after_branch
  after_branch-Kept publisher entry (answered branch) permitted may w h =
      let next = record entry { branch = some branch } in
      let (r, t) = save p next w in
      after_branch_saved-Kept publisher entry branch r (permitted branch)
        (λ saved e. saved-MayWrite next saved w e may) t h
  after_branch-Kept publisher entry (github_error code retryable) permitted may w h =
      fail-Kept entry code _ retryable w h
  after_branch-Kept publisher entry crashed permitted may w h = fail-Kept entry _ _ true w h

  -- the branch, and then the pull request of that branch or of the one that is there
  abbrev MayOpen : PublicationLedgerEntry → Type 0
  MayOpen entry =
      (entry.branch ≡ none → P (ensure_branch_call plan.run.run_id))
      × ((branch : String) → entry.branch ≡ none → P (ensure_pull_request_call branch))
      × ((branch : String) → entry.branch ≡ some branch → P (ensure_pull_request_call branch))

  branch-Kept :
      (publisher : GitHubPublisher) (entry : PublicationLedgerEntry) (branch : Option String)
      → entry.branch ≡ branch
      → MayOpen entry
      → MayWrite entry
      → Kept P calls (branch_stage p publisher plan entry patch branch)
  unfolding branch_stage
  branch-Kept publisher entry (some branch) e (make, open_new, open_old) may w h =
      pull_request-Kept publisher entry branch (open_old branch e) may w h
  branch-Kept publisher entry none e (make, open_new, open_old) may w h =
      after_branch-Kept publisher entry _ (λ branch. open_new branch e) may
        (note (ensure_branch_call plan.run.run_id) w) (one_added (make e) h)

  publisher-Kept :
      (entry : PublicationLedgerEntry) (publisher : Option GitHubPublisher)
      → MayOpen entry
      → MayWrite entry
      → Kept P calls (publisher_stage p plan entry patch publisher)
  publisher-Kept entry none opens may = fail-Kept entry _ _ false
  publisher-Kept entry (some publisher) opens may =
      branch-Kept publisher entry entry.branch refl opens may

  github-Kept :
      (entry : PublicationLedgerEntry)
      → (entry.github_required ≡ true → is_some entry.pull_request_url ≡ false → MayOpen entry)
      → MayWrite entry
      → Kept P calls (github_stage p plan entry patch)
  unfolding github_stage
  github-Kept entry opens may =
      if-Kept P calls (entry.github_required && not (is_some entry.pull_request_url)) _ _
        (λ due.
          publisher-Kept entry (enabled_publisher p)
            (opens (ground (arith, due)) (ground (arith, due))) may)
        (λ done_already. datahub-Kept entry may)

  -- A live publication makes calls that its entry asks for.
  pub live-Kept :
      (entry : PublicationLedgerEntry)
      → (entry.github_required ≡ true → is_some entry.pull_request_url ≡ false → MayOpen entry)
      → MayWrite entry
      → Kept P calls (approve_live p plan entry patch)
  unfolding approve_live
  live-Kept entry opens may =
      bind-Kept P calls (move_unless (is_publishing plan.run.state) p _ _ _) _
        (move_unless-Kept P calls _ p _ _ _)
        (λ moved.
          if-Kept P calls (destination_mismatch p.settings plan.run entry) _ _
            (λ mismatch. fail-Kept entry _ _ false) (λ same. github-Kept entry opens may))
