-- ===== src/Risk/Bounds.antt =====
-- What every score shows: its range, its band, and the evidence behind each factor.
use changesafe.Prelude.{
  ℕ, ◌≤◌, ◌≡◌, ◌≢◌, refl, Bool, true, not, ◌&&◌, List, [], ◌∷◌, String, arith, min, leb, all,
  all-append, is_empty, ok, guard, >>=-eq-ok, ok-injective, ok_of_ne_err, subst, &&_iff,
}
use changesafe.SqlTypes.Canonicalize.{canonical_sql_type}
use changesafe.SqlTypes.Kind.{ChangeKind, no_op, widening, incompatible, type_change_kind}
use changesafe.Domain.Change.{ChangeRequest, ChangeOperation, rename, remove, type_change}
use changesafe.Domain.Context.{ContextBundle, AffectedAsset}
use changesafe.Domain.Analysis.{RiskFactor, RiskResult, RiskBand}
use changesafe.Risk.Score.{
  band_for, base_factor, base_factor_in, type_factor, widening_factor, context_factors,
  total_points, strategy_for, score_change, lift, or_text, differs, old_type_mismatch,
  downstream_factor, executive_factor, production_ml_factor, governed_factor, usage_factor,
  cross_domain_factor, owner_factor,
}

-- `points` within the declared range, and evidence that is not empty, as `RiskFactor` demands
abbrev pub well_formed : RiskFactor → Bool
well_formed f = leb f.points 100 && not (is_empty f.evidence_urns)

pub record IsSound (r : RiskResult) : Type 0 where
  pub at_least : 15 ≤ r.score
  pub at_most : r.score ≤ 100
  pub total : r.score ≡ min (total_points r.factors) 100
  pub banded : band_for r.score ≡ ok r.band
  pub strategy : r.recommended_strategy ≡ strategy_for r.band
  pub evidenced : all well_formed r.factors ≡ true

widening_factor_sound :
    (urn : String) (k : ChangeKind) (f : RiskFactor)
    → widening_factor urn k ≡ ok f
    → (15 ≤ f.points) × (well_formed f ≡ true)
unfolding widening_factor
widening_factor_sound urn no_op f h = cc
widening_factor_sound urn widening f h = rw (← ok-injective h) (omega arith, refl)
widening_factor_sound urn incompatible f h = rw (← ok-injective h) (omega arith, refl)

type_factor_sound :
    (change : ChangeRequest) (t : String) (f : RiskFactor)
    → type_factor change t ≡ ok f
    → (15 ≤ f.points) × (well_formed f ≡ true)
unfolding type_factor
type_factor_sound change t f h =
    let (a, _, h₁) = >>=-eq-ok (lift (canonical_sql_type t)) _ h in
    let (b, _, h₂) = >>=-eq-ok (lift (canonical_sql_type (or_text change.old_type t))) _ h₁ in
    let (_, _, h₃) = >>=-eq-ok (guard (not (differs change.old_type b a)) old_type_mismatch) _ h₂ in
    let (k, _, h₄) = >>=-eq-ok (lift (type_change_kind t (or_text change.new_type ""))) _ h₃ in
    widening_factor_sound change.asset_urn k f h₄

base_factor_sound :
    (o : ChangeOperation) (change : ChangeRequest) (t : String) (f : RiskFactor)
    → base_factor_in o change t ≡ ok f
    → (15 ≤ f.points) × (well_formed f ≡ true)
unfolding base_factor_in
base_factor_sound rename change t f h = rw (← ok-injective h) (omega arith, refl)
base_factor_sound remove change t f h = rw (← ok-injective h) (omega arith, refl)
base_factor_sound type_change change t f h = type_factor_sound change t f h

downstream_sound : (ds : List AffectedAsset) → all well_formed (downstream_factor ds) ≡ true
unfolding downstream_factor
downstream_sound [] = refl
downstream_sound (d ∷ ds) = ground arith

executive_sound : (ds : List AffectedAsset) → all well_formed (executive_factor ds) ≡ true
unfolding executive_factor
executive_sound ds = ground arith

production_ml_sound : (ds : List AffectedAsset) → all well_formed (production_ml_factor ds) ≡ true
unfolding production_ml_factor
production_ml_sound ds = ground arith

governed_sound : (c : ContextBundle) → all well_formed (governed_factor c) ≡ true
unfolding governed_factor
governed_sound c = ground arith

usage_sound : (c : ContextBundle) → all well_formed (usage_factor c) ≡ true
unfolding usage_factor
usage_sound c = ground arith

cross_domain_sound : (c : ContextBundle) → all well_formed (cross_domain_factor c) ≡ true
unfolding cross_domain_factor
cross_domain_sound c = ground arith

owner_sound : (c : ContextBundle) → all well_formed (owner_factor c) ≡ true
unfolding owner_factor
owner_sound c = ground arith

context_factors_sound : (c : ContextBundle) → all well_formed (context_factors c) ≡ true
unfolding context_factors
context_factors_sound c = simp (
  all-append, downstream_sound, executive_sound, production_ml_sound, governed_sound, usage_sound,
  cross_domain_sound, owner_sound,
)

-- A score within the range always has a band.
pub band_for_total : (n : ℕ) → n ≤ 100 → (b : RiskBand) × (band_for n ≡ ok b)
unfolding band_for
band_for_total n h = ok_of_ne_err (band_for n) (λ e k. ground arith)

-- Every result has a score between 15 and 100 that is the capped sum of its factors, the band and
-- the strategy of that score, and factors that all name evidence.
pub score_change-IsSound :
    (change : ChangeRequest) (context : ContextBundle) (r : RiskResult)
    → score_change change context ≡ ok r
    → IsSound r
unfolding score_change base_factor
score_change-IsSound change context r h =
    let (base, hb, h₁) =
      >>=-eq-ok (base_factor_in change.operation change context.field_type) _ h in
    let (band, he, h₂) = >>=-eq-ok (band_for _) _ h₁ in
    let (least, form) = base_factor_sound change.operation change context.field_type base hb in
    subst IsSound (ok-injective h₂) (record {
      at_least = omega arith;
      at_most = omega arith;
      total = refl;
      banded = he;
      strategy = refl;
      evidenced = (&&_iff _ _).1 (form, context_factors_sound context);
    })

simple_base :
    (o : ChangeOperation) (change : ChangeRequest) (t : String)
    → o ≢ type_change
    → (f : RiskFactor) × (base_factor_in o change t ≡ ok f)
unfolding base_factor_in
simple_base rename change t h = (_, refl)
simple_base remove change t h = (_, refl)
simple_base type_change change t h = absurd (h refl)

-- The result that is built from a base factor and a band.
unfoldable pub scored : RiskFactor → ContextBundle → RiskBand → RiskResult
scored base context band = record {
  score = min (total_points (base ∷ context_factors context)) 100;
  band = band;
  factors = base ∷ context_factors context;
  recommended_strategy = strategy_for band;
}

pub score_change-eq-scored :
    (change : ChangeRequest) (context : ContextBundle) (base : RiskFactor) (band : RiskBand)
    → base_factor_in change.operation change context.field_type ≡ ok base
    → band_for (min (total_points (base ∷ context_factors context)) 100) ≡ ok band
    → score_change change context ≡ ok (scored base context band)
unfolding score_change base_factor scored
score_change-eq-scored change context base band e k = rw (e, k)

-- A change that is no type change is always scored.
pub score_change_total :
    (change : ChangeRequest) (context : ContextBundle)
    → change.operation ≢ type_change
    → (r : RiskResult) × (score_change change context ≡ ok r)
score_change_total change context h =
    let (base, e) = simple_base change.operation change context.field_type h in
    let (band, k) =
      band_for_total (min (total_points (base ∷ context_factors context)) 100) (omega arith) in
    (scored base context band, score_change-eq-scored change context base band e k)
