-- ===== src/Publication/Granted.antt =====
-- What an approval that is not refused rests on.
use changesafe.Prelude.{
  ◌≡◌, refl, ap, subst, inl, inr, Bool, true, false, not, ◌&&◌, Option, none, some, List, [], ◌∷◌,
  String, ◌=s=◌, =s=_iff, is_empty, is_some, Result, ok, err, guard, >>=-eq-ok, ok-injective,
  not-eq-true, Bool-cases, arith,
}
use changesafe.Domain.Analysis.{ValidationReport, AnalysisResult, ApprovalBlocker}
use changesafe.Domain.Publication.{PublicationMode, PublicationLedgerEntry}
use changesafe.Policy.Approval.{IsApprovable, evaluate_approval_policy_iff}
use changesafe.Risk.Score.{score_change}
use changesafe.Store.Tables.{RunRow, RunStore}
use changesafe.Store.Runs.{get}
use changesafe.Store.Ledger.{get_publication}
use changesafe.Config.Settings.{Settings}
use changesafe.Publication.Intent.{is_live_intent, is_preview_intent, bind_intent, intent_matches}
use changesafe.Publication.Authorize.{
  Denial, authorize, after_token, token_matches, compare_digest, is_ascii, is_allowlisted,
}
use changesafe.Publication.Bound.{HasMode, bind-BoundTo, IsFree, same-IsFree, entry-IsFree}
use changesafe.Store.Steps.{IsReachable}
use changesafe.Publication.Ports.{
  Service, PublicationError, state_conflict, receipt_conflict, wrong_state, intent_missing,
  unknown_run, no_artifacts, manifest_missing,
}
use changesafe.Publication.Review.{
  Plan, or_raise, of_risk, of_denial, settings_of, conflicts, completed_receipt, current_blockers,
  is_current, require_current_policy, is_approvable, entry_of, review_entry, review_run, review,
}

-- the verification of the artifacts passes and the policy holds, both at the time of the approval
abbrev pub MeetsPolicy : Service → RunRow → AnalysisResult → Type 0
MeetsPolicy p run a =
    (validation : ValidationReport) × (p.verify_artifacts a.artifacts run.request a.context
      ≡ some validation)
    × IsApprovable (settings_of p run) run.request a.context validation a.warehouse_validation
        p.policy_now

-- the caller has the owner's token, and the target is one of the allowlist
abbrev pub IsOwned : Settings → Option String → String → Type 0
IsOwned s token urn =
    (secret : String) × (s.changesafe_admin_token ≡ some secret)
    × (token ≡ some secret)
    × (is_allowlisted s urn ≡ true)

pub record IsGranted (p : Service) (id : String) (token : Option String) (s : RunStore)
    (plan : Plan) : Type 0 where
  pub found : get id s ≡ some plan.run
  pub analysed : plan.run.analysis ≡ some plan.analysis
  pub policy : MeetsPolicy p plan.run plan.analysis
  pub approvable : is_approvable plan.run.state ≡ true
  pub free : IsReachable s → IsFree plan.entry s
  pub agrees : conflicts plan.run.state plan.entry.publication_mode ≡ false
  pub intended :
      is_preview_intent plan.entry.publication_mode
      ≡ not (is_live_intent plan.entry.publication_mode)
  pub owned :
      is_live_intent plan.entry.publication_mode ≡ true
      → IsOwned p.settings token plan.run.request.asset_urn

or_raise-ok :
    {A : Type 0} (e : PublicationError) (o : Option A) (a : A) → or_raise e o ≡ ok a → o ≡ some a
or_raise-ok e none a h = cc h
or_raise-ok e (some b) a h = ap (λ x. some x) (ok-injective h)

guard-ok : {E : Type 0} (b : Bool) (e : E) (u : Unit {0}) → guard b e ≡ ok u → b ≡ true
guard-ok true e u h = refl
guard-ok false e u h = cc h

of_denial-ok : (r : Result Denial (Unit {0})) (u : Unit {0}) → of_denial r ≡ ok u → r ≡ ok tt
of_denial-ok (ok tt) u h = refl
of_denial-ok (err d) u h = cc h

empty-eq-nil : (bs : List ApprovalBlocker) → is_empty bs ≡ true → bs ≡ []
empty-eq-nil [] h = refl
empty-eq-nil (b ∷ bs) h = cc h

require-MeetsPolicy :
    (p : Service) (run : RunRow) (a : AnalysisResult)
    → require_current_policy p run a ≡ ok tt
    → MeetsPolicy p run a
unfolding require_current_policy is_current
require-MeetsPolicy p run a h =
    let (risk, h1, r1) = >>=-eq-ok (of_risk (score_change run.request a.context)) _ h in
    let (validation, h2, r2) =
      >>=-eq-ok (or_raise _ (p.verify_artifacts a.artifacts run.request a.context)) _ r1 in
    let current = guard-ok (is_current p run a risk validation) _ tt r2 in
    (
      validation,
      or_raise-ok _ _ validation h2,
      (evaluate_approval_policy_iff (settings_of p run) run.request a.context validation
            a.warehouse_validation p.policy_now).0
          (empty-eq-nil (current_blockers p run a validation) (ground (arith, current))),
    )

compare-ok : (a b : String) → compare_digest a b ≡ ok true → a ≡ b
unfolding compare_digest
compare-ok a b h = elim (Bool-cases (is_ascii a && is_ascii b)) [
  | inl plain ↦ ground (arith, plain, =s=_iff a b)
  | inr other ↦ ground (arith, other)
]

token-Owned :
    (configured supplied : Option String)
    → token_matches configured supplied ≡ ok true
    → (secret : String) × (configured ≡ some secret) × (supplied ≡ some secret)
unfolding token_matches
token-Owned (some secret) (some text) h =
    (secret, refl, ap (λ x. some x) (compare-ok text secret h))
token-Owned none supplied h = ground (arith, h)
token-Owned (some secret) none h = ground (arith, h)

after_token-ok :
    (s : Settings) (urn : String) (r : Result Denial Bool)
    → after_token s urn r ≡ ok tt
    → (r ≡ ok true) × (is_allowlisted s urn ≡ true)
after_token-ok s urn (err d) h = cc h
after_token-ok s urn (ok false) h = cc h
after_token-ok s urn (ok true) h = (refl, ground (arith, h))

authorize-IsOwned :
    (s : Settings) (token : Option String) (urn : String) (required : Bool)
    → authorize s token urn required ≡ ok tt
    → required ≡ true
    → IsOwned s token urn
unfolding authorize
authorize-IsOwned s token urn false h e = cc e
authorize-IsOwned s token urn true h e =
    let (matches, allowed) =
      after_token-ok s urn (token_matches s.changesafe_admin_token token) h in
    let (secret, c, t) = token-Owned s.changesafe_admin_token token matches in
    (secret, c, t, allowed)

mode-intended :
    (o : Option PublicationMode) (m : PublicationMode)
    → o ≡ some m
    → is_preview_intent o ≡ not (is_live_intent o)
mode-intended none m h = cc h
mode-intended (some n) m h = refl

abbrev plan_of :
    RunRow → AnalysisResult → Option PublicationLedgerEntry → PublicationLedgerEntry → Plan
plan_of run a existing bound = record {
  run = run;
  analysis = a;
  entry = bound;
  reused = completed_receipt existing;
}

abbrev Authorized : Service → Option String → RunRow → PublicationLedgerEntry → Type 0
Authorized p token run bound =
    authorize p.settings token run.request.asset_urn (is_live_intent bound.publication_mode) ≡ ok tt

review_entry-ok :
    (p : Service) (token : Option String) (run : RunRow) (a : AnalysisResult)
    (existing : Option PublicationLedgerEntry) (bound : PublicationLedgerEntry) (plan : Plan)
    → review_entry p token run a existing bound ≡ ok plan
    → (plan_of run a existing bound ≡ plan)
      × Authorized p token run bound
      × (conflicts run.state bound.publication_mode ≡ false)
unfolding review_entry
review_entry-ok p token run a existing bound plan h =
    let (u2, h8, r8) =
      >>=-eq-ok (guard (not (conflicts run.state bound.publication_mode)) state_conflict) _ h in
    let (u3, h9, r9) =
      >>=-eq-ok
        (of_denial (
          authorize p.settings token run.request.asset_urn (is_live_intent bound.publication_mode)))
        _ r8 in
    let (u4, h10, r10) =
      >>=-eq-ok
        (guard
          (not (
            is_some (completed_receipt existing)
            && not (bound.run_id =s= run.run_id)
            && not (intent_matches p.settings run bound)))
          receipt_conflict)
        _ r9 in
    (
      ok-injective r10,
      of_denial-ok _ u3 h9,
      not-eq-true (conflicts run.state bound.publication_mode)
          (guard-ok (not (conflicts run.state bound.publication_mode)) state_conflict u2 h8),
    )

review_run-ok :
    (p : Service) (token : Option String) (run : RunRow) (a : AnalysisResult) (hash : String)
    (s : RunStore) (plan : Plan)
    → review_run p token run a hash s ≡ ok plan
    → (existing : Option PublicationLedgerEntry) × (bound : PublicationLedgerEntry) × (plan_of run a
          existing bound
        ≡ plan)
      × Authorized p token run bound
      × (conflicts run.state bound.publication_mode ≡ false)
      × (IsReachable s → IsFree bound s)
      × HasMode bound
      × (is_approvable run.state ≡ true)
unfolding review_run
review_run-ok p token run a hash s plan h =
    let key = p.publication_key run.request run.request.source_commit hash in
    let existing = get_publication key s in
    let (u1, h5, r5) = >>=-eq-ok (guard (is_approvable run.state) wrong_state) _ h in
    let (entry, h6, r6) = >>=-eq-ok (entry_of p run key hash existing) _ r5 in
    let (bound, h7, r7) =
      >>=-eq-ok (or_raise intent_missing (bind_intent p.settings run entry)) _ r6 in
    let bound_to =
      bind-BoundTo p.settings run entry bound
        (or_raise-ok intent_missing (bind_intent p.settings run entry) bound h7) in
    let (same, allowed, agrees) = review_entry-ok p token run a existing bound plan r7 in
    (
      existing,
      bound,
      same,
      allowed,
      agrees,
      λ reach. same-IsFree bound entry s bound_to.1 (entry-IsFree p run key hash s entry reach h6),
      bound_to.0,
      guard-ok (is_approvable run.state) wrong_state u1 h5,
    )

-- A review that is not refused grants what the approval needs.
pub review-IsGranted :
    (p : Service) (id : String) (token : Option String) (s : RunStore) (plan : Plan)
    → review p id token s ≡ ok plan
    → IsGranted p id token s plan
unfolding review
review-IsGranted p id token s plan h =
    let (run, h1, r1) = >>=-eq-ok (or_raise unknown_run (get id s)) _ h in
    let (a, h2, r2) = >>=-eq-ok (or_raise no_artifacts run.analysis) _ r1 in
    let (u, h3, r3) = >>=-eq-ok (require_current_policy p run a) _ r2 in
    let (hash, h4, r4) = >>=-eq-ok (or_raise manifest_missing a.artifacts.manifest_hash) _ r3 in
    let (existing, bound, same, allowed, agrees, free, (m, mode), approvable) =
      review_run-ok p token run a hash s plan r4 in
    subst (IsGranted p id token s) same (record {
      found = or_raise-ok unknown_run (get id s) run h1;
      analysed = or_raise-ok no_artifacts run.analysis a h2;
      policy = require-MeetsPolicy p run a h3;
      approvable = approvable;
      free = free;
      agrees = agrees;
      intended = mode-intended bound.publication_mode m mode;
      owned = λ required.
          authorize-IsOwned p.settings token run.request.asset_urn
            (is_live_intent bound.publication_mode) allowed required;
    })
