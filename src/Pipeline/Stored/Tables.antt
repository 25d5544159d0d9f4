-- ===== src/Pipeline/Stored/Tables.antt =====
-- One commitment of a pass of internal/pipeline/evaluate.go over the store of internal/store/memory: what it writes to the
-- two tables, and that all else leaves them as they are.
use nous.Prelude.{
  ℕ, ◌≡◌, ◌≢◌, refl, sym, ap, ◌∙◌, subst, false, Option, none, String, List, [], ◌∷◌, arith, length,
}
use nous.Prelude.Time.{Time}
use nous.Prelude.Float.{Float64, outside_unit}
use nous.Domain.Errors.{Uuid, Error, Result, ok, err, IsOk-value}
use nous.Domain.Types.{ChronosSignal}
use nous.Domain.Commitment.{Commitment}
use nous.Domain.Decision.{Decision, new_decision, validate, text, count, number, risk_factors}
use nous.Domain.Intervention.{Intervention}
use nous.Risk.Types.{RiskAssessment}
use nous.Risk.Engine
use nous.Risk.Engine.{evaluate_commitment}
use nous.Intervene.Engine as Policy
use nous.Store.Table.{Table, insert}
use nous.Store.Arrange.{Arrange}
use nous.Store.Memory.{State}
use nous.Store.Memory.Decisions as Ledger
use nous.Store.Memory.Interventions as Nudges
use nous.Pipeline.Stored.{Outside, stored, at_store}
use nous.Pipeline.Stored.Repository.{
  recall_beside, append_beside, signals_beside, dry_run_beside, nudge_table,
}
use nous.Domain.Decision.Validity.{new_decision_accepts, new_decision-validate}
use nous.Pipeline.Evidence.{after_save, filled, save_built, record_decision}
use nous.Pipeline.Evaluate.Full.{speaks}
use nous.Pipeline.Evaluate.Contract.{Onward, Aside}
use nous.Pipeline.Evaluate.Keeps.{mirror_go}

module _ {F X : Type 0} where
  -- The two tables that a pass writes to.
  pub record HasTables (cs : Table (Commitment F)) (ds : Table (Decision F)) (w : State F × X)
      : Type 0 where
    pub rows : w.0.commitments ≡ cs
    pub ledger : w.0.decisions ≡ ds

  abbrev pub Any : State F × X → Uuid → Type 0
  Any w i = Unit

  module _ (cs : Table (Commitment F)) (ds : Table (Decision F)) where
    same_tables :
        (w w' : State F × X)
        → w'.0.commitments ≡ w.0.commitments
        → w'.0.decisions ≡ w.0.decisions
        → Onward (HasTables cs ds) Any w w'
    same_tables w w' e f = record {
      kept = λ h. record { rows = e ∙ h.rows; ledger = f ∙ h.ledger };
      stays = λ i h. h;
    }

    same_all : (w w' : State F × X) → w'.0 ≡ w.0 → Onward (HasTables cs ds) Any w w'
    same_all w w' e =
        same_tables w w' (ap (λ (s : State F). s.commitments) e)
          (ap (λ (s : State F). s.decisions) e)

module _ {F : Type 0} ⦃fl : Float64 F⦄ (string_of : Uuid → String) where
  nudge_ledger :
      (s : State F) (iv : Intervention) → (Nudges.save string_of s iv).0.decisions ≡ s.decisions
  unfolding Nudges.save
  nudge_ledger s iv = ground arith

module _ {F X : Type 0} ⦃fl : Float64 F⦄ (rows : Arrange (Commitment F)) (out : Outside F X)
    (cs : Table (Commitment F)) (ds : Table (Decision F)) where
  pub tables-Aside : Aside (stored rows out) (HasTables cs ds) Any
  tables-Aside = record {
    intervention_on = λ w iv.
        same_tables cs ds w _ (nudge_table out.string_of w.0 iv)
          (nudge_ledger out.string_of w.0 iv);
    recall_on = λ m e w q. same_all cs ds w _ (recall_beside out.mnemos m e w q);
    append_on = λ m e w v. same_all cs ds w _ (append_beside out.mnemos m e w v);
    signals_on = λ f e w q. same_all cs ds w _ (signals_beside out.chronos f e w q);
    dry_run_on = λ f e w r. same_all cs ds w _ (dry_run_beside out.praxis f e w r);
    uuid_on = λ w. same_all cs ds w _ refl;
    runs_on = λ w. same_all cs ds w _ refl;
    score_on = λ w x. same_all cs ds w _ refl;
    created_on = λ w. same_all cs ds w _ refl;
  }

module _ {F : Type 0} (string_of : Uuid → String) where
  -- The decision `d` says that commitment `c` was assessed as `a`.
  pub record IsRecord (c : Commitment F) (a : RiskAssessment F) (d : Decision F) : Type 0 where
    pub concerns :
        (n : ℕ) × (d.inputs
          ≡ ("commitment_id", text (string_of c.id)) ∷ ("signal_count", count n) ∷ [])
    pub says : d.outcome ≡ ("risk_score", number a.score) ∷ ("factors", risk_factors a.factors) ∷ []

module _ {F X : Type 0} ⦃fl : Float64 F⦄ (rows : Arrange (Commitment F)) (out : Outside F X)
    (draws : (x : X) → (out.new_uuid x).0 ≢ 0) (risk : Engine.Config F)
    (policy : Policy.Config F) where
  ledger_saved :
      (s : State F) (d : Decision F)
      → validate d ≡ none
      → Ledger.save out.string_of s d
        ≡ (record s { decisions = insert (out.string_of d.id) d s.decisions }, none)
  unfolding Ledger.save
  ledger_saved s d h = ground arith

  -- What recording a decision comes to.
  abbrev Recorded :
      State F × X → Commitment F → RiskAssessment F → (State F × X) × Result (Decision F) → Type 0
  Recorded w c a r =
      (d : Decision F) × (r.1 ≡ ok d)
      × HasTables w.0.commitments (insert (out.string_of d.id) d w.0.decisions) r.0
      × IsRecord out.string_of c a d

  after_save-Recorded :
      (w : State F × X) (s : State F × Option Error) (c : Commitment F) (d : Decision F)
      (a : RiskAssessment F) (n : ℕ) (now : Time)
      → s ≡ (record w.0 { decisions = insert (out.string_of d.id) d w.0.decisions }, none)
      → IsRecord out.string_of c a d
      → Recorded w c a (after_save (stored rows out) (at_store w s) c d a n now)
  unfolding after_save
  after_save-Recorded w s c d a n now e h =
      subst (λ t. Recorded w c a (after_save (stored rows out) (at_store w t) c d a n now)) (sym e)
        (
          d,
          refl,
          (mirror_go (stored rows out) risk policy _ Any
                (tables-Aside rows out w.0.commitments
                  (insert (out.string_of d.id) d w.0.decisions))
                (record w.0 { decisions = insert (out.string_of d.id) d w.0.decisions }, w.1) c d a
                n now).kept
              (record { rows = refl; ledger = refl }),
          h,
        )

  filled-IsRecord :
      (d : Decision F) (c : Commitment F) (a : RiskAssessment F) (n : ℕ)
      → IsRecord out.string_of c a (filled (stored rows out) risk d c a n)
  unfolding filled
  filled-IsRecord d c a n = record { concerns = (n, refl); says = refl }

  filled_valid :
      (d : Decision F) (c : Commitment F) (a : RiskAssessment F) (n : ℕ)
      → validate d ≡ none
      → validate (filled (stored rows out) risk d c a n) ≡ none
  unfolding filled validate
  filled_valid d c a n h = h

  save_built-Recorded :
      (w : State F × X) (r : Result (Decision F)) (c : Commitment F) (a : RiskAssessment F) (n : ℕ)
      (now : Time) (d : Decision F)
      → r ≡ ok d
      → validate d ≡ none
      → Recorded w c a (save_built (stored rows out) risk w r c a n now)
  unfolding save_built
  save_built-Recorded w (err e) c a n now d h v = absurd (cc h)
  save_built-Recorded w (ok d') c a n now d h v =
      let f = filled (stored rows out) risk d' c a n in
      after_save-Recorded w (Ledger.save out.string_of w.0 f) c f a n now
        (ledger_saved w.0 f (filled_valid d' c a n (ground arith))) (filled-IsRecord d' c a n)

  pub record_decision-Recorded :
      (w : State F × X) (c : Commitment F) (a : RiskAssessment F) (signals : List (ChronosSignal F))
      (now : Time)
      → outside_unit a.confidence ≡ false
      → Recorded w c a (record_decision (stored rows out) risk w c a signals now)
  unfolding record_decision
  record_decision-Recorded w c a signals now o =
      let id = (out.new_uuid w.1).0 in
      let (d, e) =
        IsOk-value (new_decision id _ _ a.confidence now)
          ((new_decision_accepts id _ _ a.confidence now).1 (draws w.1, speaks.0, speaks.1, o)) in
      save_built-Recorded (w.0, (out.new_uuid w.1).1) _ c a (length signals) now d e
        (new_decision-validate id _ _ a.confidence now e)
