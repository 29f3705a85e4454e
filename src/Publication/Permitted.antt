-- ===== src/Publication/Permitted.antt =====
-- What each call to GitHub and DataHub of an approval rests on.
use changesafe.Prelude.{
  some-injective, none-ne-some, List, ◌≡◌, refl, sym, ◌∙◌, true, false, Option, none, some, String,
  is_some, arith,
}
use changesafe.Exec.{final}
use changesafe.Domain.Publication.{PublicationReceipt, PublicationLedgerEntry}
use changesafe.Store.Tables.{RunRow, RunStore}
use changesafe.Publication.Intent.{is_written, is_preview_intent}
use changesafe.Publication.Patch.{build_unified_patch}
use changesafe.Publication.Ports.{
  Service, World, ExternalCall, ensure_branch_call, ensure_pull_request_call, writeback_call,
  unsafe_path,
}
use changesafe.Publication.Review.{Plan, or_raise, review}
use changesafe.Publication.Ends.{Step, save, move, move_unless}
use changesafe.Publication.Approve.{
  finished_receipt, or_finished, reuse_receipt, reuse_completed_receipt, prepare_preview,
  approve_preview, publish_bound, reuse_or_publish, approve,
}
use changesafe.Publication.Rules.{
  Adds, none_added, Kept, bind-Kept, lift-Kept, if-Kept, save-Kept, move_unless-Kept, stamped,
}
use changesafe.Publication.Calls.{live-Kept}
use changesafe.Publication.Granted.{IsGranted, IsOwned, review-IsGranted}

-- a call that the intent requires, and that no checkpoint says is done
abbrev pub IsDue : Plan → ExternalCall → Type 0
IsDue plan (ensure_branch_call id) =
    (id ≡ plan.run.run_id)
    × (plan.entry.github_required ≡ true)
    × (is_some plan.entry.pull_request_url ≡ false)
    × (plan.entry.branch ≡ none)
IsDue plan (ensure_pull_request_call branch) =
    (plan.entry.github_required ≡ true)
    × (is_some plan.entry.pull_request_url ≡ false)
    × ((made : String) → plan.entry.branch ≡ some made → branch ≡ made)
IsDue plan (writeback_call key) =
    (key ≡ plan.entry.idempotency_key)
    × (plan.entry.datahub_required ≡ true)
    × (is_written plan.entry.writeback ≡ false)

abbrev pub IsPermitted : Service → String → Option String → RunStore → ExternalCall → Type 0
IsPermitted p id token s call =
    (plan : Plan) × IsGranted p id token s plan
    × IsOwned p.settings token plan.run.request.asset_urn
    × IsDue plan call

module _ (P : ExternalCall → Type 0) (p : Service) where
  or_finished-Kept :
      (o : Option PublicationReceipt) (m : Step PublicationReceipt) (calls : List ExternalCall)
      → Kept P calls m
      → Kept P calls (or_finished o m)
  or_finished-Kept (some receipt) m calls k = λ w h. h
  or_finished-Kept none m calls k = k

  pub reuse-Kept :
      (run : RunRow) (receipt : PublicationReceipt) (calls : List ExternalCall)
      → Kept P calls (reuse_completed_receipt p run receipt)
  unfolding reuse_completed_receipt reuse_receipt
  reuse-Kept run receipt calls = or_finished-Kept (finished_receipt run) _ calls (
      bind-Kept P calls (move_unless _ p _ _ _) _ (move_unless-Kept P calls _ p _ _ _)
        (λ u. bind-Kept P calls (move p _ _ _) _ (λ w h. h) (λ row w h. h)))

  preview-Kept :
      (plan : Plan) (entry : PublicationLedgerEntry) (patch : String) (calls : List ExternalCall)
      → Kept P calls (approve_preview p plan entry patch)
  unfolding approve_preview prepare_preview
  preview-Kept plan entry patch calls = or_finished-Kept (finished_receipt plan.run) _ calls (
      bind-Kept P calls (move_unless _ p _ _ _) _ (move_unless-Kept P calls _ p _ _ _) (λ u.
        bind-Kept P calls (save p _) _ (λ w h. h)
          (λ saved. bind-Kept P calls (move p _ _ _) _ (λ w h. h) (λ row w h. h))))

  publish-Kept :
      (plan : Plan) (calls : List ExternalCall)
      → ((call : ExternalCall)
          → is_preview_intent plan.entry.publication_mode ≡ false
          → IsDue plan call
          → P call)
      → Kept P calls (publish_bound p plan)
  unfolding publish_bound
  publish-Kept plan calls due = save-Kept P calls p plan.entry _ (
      lift-Kept P calls (or_raise unsafe_path (build_unified_patch plan.analysis.artifacts)) _
        (λ patch e.
          if-Kept P calls (is_preview_intent plan.entry.publication_mode) _ _
            (λ shown. preview-Kept plan (stamped p plan.entry) patch calls)
            (λ meant.
              live-Kept P calls p plan patch (stamped p plan.entry)
                (λ required missing. (
                  λ unmade.
                      due (ensure_branch_call plan.run.run_id) meant
                        (refl, required, missing, unmade),
                  λ branch unmade.
                      due (ensure_pull_request_call branch) meant
                        (required, missing, λ made e. absurd (none-ne-some (sym unmade ∙ e))),
                  λ branch is_made.
                      due (ensure_pull_request_call branch) meant
                        (required, missing, λ made e. some-injective (sym is_made ∙ e)),
                ))
                (λ required unwritten.
                  due (writeback_call plan.entry.idempotency_key) meant
                    (refl, required, unwritten)))))

  reuse_or_publish-Kept :
      (plan : Plan) (reused : Option PublicationReceipt) (calls : List ExternalCall)
      → ((call : ExternalCall)
          → is_preview_intent plan.entry.publication_mode ≡ false
          → IsDue plan call
          → P call)
      → Kept P calls (reuse_or_publish p plan reused)
  reuse_or_publish-Kept plan (some receipt) calls due = reuse-Kept plan.run receipt calls
  reuse_or_publish-Kept plan none calls due = publish-Kept plan calls due

-- Whatever the ports answer, every call to GitHub or DataHub that an approval makes is for a run that
-- may be approved and that meets the policy when it is approved, with the owner's token and a target of
-- the allowlist; its intent requires the call, and its entry has no checkpoint of it yet.
pub approve-IsPermitted :
    (p : Service) (id : String) (token : Option String) (w : World)
    → Adds
        (IsPermitted p id token w.store)
        w.external_calls
        (final (approve p id token w)).external_calls
unfolding approve
approve-IsPermitted p id token w =
    lift-Kept (IsPermitted p id token w.store) w.external_calls (review p id token w.store)
      (λ plan. reuse_or_publish p plan plan.reused)
      (λ plan accepted.
        let g = review-IsGranted p id token w.store plan accepted in
        reuse_or_publish-Kept (IsPermitted p id token w.store) p plan plan.reused w.external_calls
          (λ call meant due. (plan, g, g.owned (ground (arith, g.intended, meant)), due)))
      w none_added
