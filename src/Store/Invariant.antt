-- ===== src/Store/Invariant.antt =====
-- Every write keeps the events of each run a trail that ends at the state of its row.
use changesafe.Prelude.{refl, sym, ◌∙◌, subst, inl, inr, ℕ, Option, String}
use changesafe.Exec.{final, final-if}
use changesafe.Domain.Change.{ChangeRequest}
use changesafe.Domain.Publication.{Decimal, LlmUsage, PublicationLedgerEntry}
use changesafe.Store.Tables.{RunStore, find_run, events_of}
use changesafe.Store.Runs.{create, usd_to_micros}
use changesafe.Store.Inserting.{insert_run-cases, create-cases}
use changesafe.Store.Usage.{record_llm_usage, release_llm_reservation}
use changesafe.Store.Ledger.{save_publication, is_bound_elsewhere, find_publication}
use changesafe.Store.Steps.{
  Call, create_call, transition_call, record_llm_usage_call, release_llm_reservation_call,
  save_publication_call, run, IsReachable, at_start, after_call,
}
use changesafe.Store.Advance.{Agree, IsConsistent}
use changesafe.Store.Insert.{inserted-IsConsistent, transition-IsConsistent}

-- `create` keeps the tables consistent, when it raises too.
pub create-IsConsistent :
    (id : String) (change : ChangeRequest) (session : Option String) (reservation : Decimal)
    (budget : Option Decimal) (now : ℕ) (s : RunStore)
    → IsConsistent s
    → IsConsistent (final (create id change session reservation budget now s))
create-IsConsistent id change session reservation budget now s c =
    let micros = usd_to_micros reservation in
    elim (create-cases id change session reservation budget now s) [
      | inl over ↦ subst (λ x. IsConsistent (final x)) (sym over) c
      | inr inserts ↦ elim (insert_run-cases id change session micros now s) [
        | inl taken ↦ subst (λ x. IsConsistent (final x)) (sym (inserts ∙ taken)) c
        | inr (fresh, added) ↦
            subst (λ x. IsConsistent (final x)) (sym (inserts ∙ added))
              (inserted-IsConsistent id change session micros now s fresh c)
      ]
    ]

record_llm_usage-IsConsistent :
    (id : String) (usage : LlmUsage) (now : ℕ) (s : RunStore)
    → IsConsistent s
    → IsConsistent (final (record_llm_usage id usage now s))
unfolding record_llm_usage IsConsistent find_run events_of
record_llm_usage-IsConsistent id usage now s c = c

release_llm_reservation-IsConsistent :
    (id : String) (now : ℕ) (s : RunStore)
    → IsConsistent s
    → IsConsistent (final (release_llm_reservation id now s))
unfolding release_llm_reservation IsConsistent find_run events_of
release_llm_reservation-IsConsistent id now s c = c

save_publication-IsConsistent :
    (entry : PublicationLedgerEntry) (now : ℕ) (s : RunStore)
    → IsConsistent s
    → IsConsistent (final (save_publication entry now s))
unfolding save_publication IsConsistent find_run events_of
save_publication-IsConsistent entry now s c =
    final-if IsConsistent
      (is_bound_elsewhere (find_publication s entry.idempotency_key) entry.artifact_hash) _ _
      (λ refused. c) (λ free. c)

-- Every write keeps the tables consistent.
pub run-IsConsistent : (c : Call) (s : RunStore) → IsConsistent s → IsConsistent (run c s)
unfolding run
run-IsConsistent (create_call id change session reservation budget now) s h =
    create-IsConsistent id change session reservation budget now s h
run-IsConsistent (transition_call id state u now) s h = transition-IsConsistent id state u now s h
run-IsConsistent (record_llm_usage_call id usage now) s h =
    record_llm_usage-IsConsistent id usage now s h
run-IsConsistent (release_llm_reservation_call id now) s h =
    release_llm_reservation-IsConsistent id now s h
run-IsConsistent (save_publication_call entry now) s h = save_publication-IsConsistent entry now s h

-- In all tables that calls of the store lead to from the empty ones, accepted or not and in any
-- order, a run without a row has no events, and the events of a run with a row are numbered from
-- 1 on without gaps in the order of their insertion, start in `created`, follow the table of
-- transitions, and end in the state of the row.
pub IsReachable-IsConsistent : (s : RunStore) → IsReachable s → IsConsistent s
unfolding IsConsistent Agree find_run events_of
IsReachable-IsConsistent _ at_start = λ id. refl
IsReachable-IsConsistent _ (after_call {s} h c) =
    run-IsConsistent c s (IsReachable-IsConsistent s h)
