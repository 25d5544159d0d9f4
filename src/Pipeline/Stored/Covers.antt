-- ===== src/Pipeline/Stored/Covers.antt =====
-- A pass of internal/pipeline/evaluate.go over the store of internal/store/memory: what stands in the store when one
-- commitment, and when all that were found, have been evaluated.
use nous.Prelude.{
  suc, ◌≡◌, ◌≢◌, refl, sym, ap, ◌∙◌, subst, false, Option, none, some, List, [], ◌∷◌, ◌++◌, arith,
}
use nous.Prelude.Time.{Time, Duration}
use nous.Prelude.Float.{Float64, outside_unit}
use nous.Domain.Errors.{Error, Result, ok, err}
use nous.Domain.Types.{ChronosSignal, MemoryRef}
use nous.Domain.Commitment.{Commitment}
use nous.Domain.Decision.{Decision}
use nous.Risk.Types.{RiskAssessment}
use nous.Risk.Engine
use nous.Risk.Engine.{evaluate_commitment}
use nous.Intervene.Engine as Policy
use nous.Store.Table.{lookup, insert}
use nous.Store.Arrange.{Arrange}
use nous.Store.Memory.{State}
use nous.Store.Memory.Laws.{rescored, update_found}
use nous.Store.Memory.Commitments.{update_risk}
use nous.Pipeline.Evidence.{record_decision, fetch_signals, fetch_memories}
use nous.Pipeline.Evaluate.{
  EvaluateOptions, EvaluateResult, noted, after_update, evaluate_one, evaluate_all,
}
use nous.Pipeline.Evaluate.Full.{confidence_same}
use nous.Pipeline.Evaluate.Counts.{intervene-OneMore}
use nous.Pipeline.Evaluate.Keeps.{intervene_go, before_update_go}
use nous.Pipeline.Stored.{Outside, stored, at_store}
use nous.Pipeline.Stored.Tables.{HasTables, tables-Aside, Any, IsRecord, record_decision-Recorded}

module _ {F X : Type 0} ⦃fl : Float64 F⦄ (rows : Arrange (Commitment F)) (out : Outside F X)
    (draws : (x : X) → (out.new_uuid x).0 ≢ 0) (risk : Engine.Config F)
    (policy : Policy.Config F) where
  -- One commitment evaluated from `w`: its row rescored, one decision written and reported.
  pub record IsEvaluated (w : State F × X) (c : Commitment F) (row : Commitment F)
      (a : RiskAssessment F) (now : Time) (res : EvaluateResult)
      (r : (State F × X) × EvaluateResult) : Type 0 where
    pub decision : Decision F
    pub reported : r.1.decisions ≡ res.decisions ++ decision.id ∷ []
    pub tables :
        HasTables
          (insert (out.string_of c.id) (rescored out.string_of row a.score now) w.0.commitments)
          (insert (out.string_of decision.id) decision w.0.decisions)
          r.0
    pub recorded : IsRecord out.string_of c a decision

  noted_decisions :
      (d : Result (Decision F)) (e : Decision F) (res : EvaluateResult)
      → d ≡ ok e
      → (noted (stored rows out) risk policy d (record res { updated = suc res.updated })).decisions
        ≡ res.decisions ++ e.id ∷ []
  unfolding noted
  noted_decisions (ok d) e res h = ground arith
  noted_decisions (err x) e res h = absurd (cc h)

  after_update-IsEvaluated :
      (w w0 : State F × X) (s : State F × Option Error) (c row : Commitment F)
      (a : RiskAssessment F) (signals : List (ChronosSignal F)) (now : Time) (res : EvaluateResult)
      → HasTables w0.0.commitments w0.0.decisions w
      → s ≡ (
        record w.0 {
          commitments =
              insert (out.string_of c.id) (rescored out.string_of row a.score now) w.0.commitments;
        },
        none,
      )
      → outside_unit a.confidence ≡ false
      → IsEvaluated w0 c row a now res
          (after_update (stored rows out) risk policy (at_store w s) c a signals now res)
  unfolding after_update
  after_update-IsEvaluated w w0 s c row a signals now res t e o =
      let u : State F × X = (
        record w.0 {
          commitments =
              insert (out.string_of c.id) (rescored out.string_of row a.score now) w.0.commitments;
        },
        w.1,
      ) in
      let r = record_decision (stored rows out) risk u c a signals now in
      let (d, made, has, says) =
        record_decision-Recorded rows out draws risk policy u c a signals now o in
      let res' =
        noted (stored rows out) risk policy r.1 (record res { updated = suc res.updated }) in
      let cs' =
        insert (out.string_of c.id) (rescored out.string_of row a.score now) w.0.commitments in
      let ds' = insert (out.string_of d.id) d w.0.decisions in
      let kept : HasTables cs' ds'
          (nous.Pipeline.Evaluate.intervene (stored rows out) risk policy r.0 c a now res').0 =
        (intervene_go (stored rows out) risk policy _ Any (tables-Aside rows out cs' ds') r.0 c a
            now res').kept
          has in
      subst
        (λ x.
          IsEvaluated w0 c row a now res
            (after_update (stored rows out) risk policy (at_store w x) c a signals now res))
        (sym e)
        (record {
          decision = d;
          reported =
              (intervene-OneMore (stored rows out) risk policy r.0 c a now res').decisions
              ∙ noted_decisions r.1 d res made;
          tables = record {
            rows =
                kept.rows
                ∙ ap (insert (out.string_of c.id) (rescored out.string_of row a.score now)) t.rows;
            ledger = kept.ledger ∙ ap (insert (out.string_of d.id) d) t.ledger;
          };
          recorded = says;
        })

  pub one-IsEvaluated :
      (w : State F × X) (c row : Commitment F) (lookback : Duration) (now : Time)
      (res : EvaluateResult)
      → lookup (out.string_of c.id) w.0.commitments ≡ some row
      → outside_unit c.confidence ≡ false
      → (signals : List (ChronosSignal F)) × (memories : List MemoryRef) × IsEvaluated w c row
          (evaluate_commitment risk c signals memories now)
          now
          res
          (evaluate_one (stored rows out) risk policy w c lookback now res)
  unfolding evaluate_one
  one-IsEvaluated w c row lookback now res l o =
      let f = fetch_signals (stored rows out) w c lookback now in
      let g = fetch_memories (stored rows out) f.0 c in
      let a = evaluate_commitment risk c f.1 g.1 now in
      let w3 : State F × X = (g.0.0, out.observe_risk_score g.0.1 a.score) in
      let t : HasTables w.0.commitments w.0.decisions w3 =
        (before_update_go (stored rows out) risk policy _ Any
            (tables-Aside rows out w.0.commitments w.0.decisions) w c lookback now a.score).kept
          (record { rows = refl; ledger = refl }) in
      (
        f.1,
        g.1,
        after_update-IsEvaluated w3 w (update_risk out.string_of w3.0 c.id a.score now) c row a f.1
            now res t
            (update_found out.string_of w3.0 c.id a.score now row
              (ap (lookup (out.string_of c.id)) t.rows ∙ l))
            (confidence_same risk c f.1 g.1 now o),
      )
