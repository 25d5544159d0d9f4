-- ===== src/Pipeline/Extract.antt =====
-- internal/pipeline/extract.go: drafts from the model become stored commitments.
pub mod Account
use nous.Prelude.{
  ℕ, suc, Bool, true, false, Option, none, some, String, List, [], ◌∷◌, ◌++◌, length, map,
  if◌then◌else◌,
}
use nous.Prelude.Time.{Time}
use nous.Prelude.Float.{Float64}
use nous.Domain.Errors.{Uuid, Error, Result, ok, err}
use nous.Domain.Types.{SourceRef}
use nous.Domain.Commitment.{Commitment, CommitmentDraft, to_commitment}
use nous.Domain.Decision.{Decision, Fields, new_decision, text, count, number, texts}
use nous.Pipeline.Services.{Services}

pub record ExtractInput : Type 0 where
  pub owner_id : String
  pub text : String
  pub hints : List String
  pub source_refs : List SourceRef

pub record ExtractResult : Type 0 where
  pub considered : ℕ
  pub saved : List Uuid
  pub dropped : ℕ
  pub decision_id : Option Uuid

abbrev pub no_result : ExtractResult
no_result = record { considered = 0; saved = []; dropped = 0; decision_id = none }

-- `extractor` is the model behind `llm.CommitmentExtractor`, `reason` the `fmt.Sprintf` of the two counts
-- and the threshold, and `counted` the metric.
module _ {F W : Type 0} ⦃fl : Float64 F⦄ (svc : Services F W)
    (extractor : W → ExtractInput → W × Result (List (CommitmentDraft F)))
    (reason : ℕ → ℕ → F → String) (counted : W → ℕ → W) (min_confidence : F) where
  drop_one : ExtractResult → ExtractResult
  drop_one res = record res { dropped = suc res.dropped }

  -- After `Save`.
  kept_or_dropped : W × Option Error → Uuid → ExtractResult → W × ExtractResult
  unfolding drop_one
  kept_or_dropped (w, some e) id res = (w, drop_one res)
  kept_or_dropped (w, none) id res = (w, record res { saved = res.saved ++ id ∷ [] })

  -- After `ToCommitment`.
  save_made : W → Result (Commitment F) → ExtractResult → W × ExtractResult
  unfolding kept_or_dropped drop_one
  save_made w (err e) res = (w, drop_one res)
  save_made w (ok c) res = kept_or_dropped (svc.save_commitment w c) c.id res

  -- The body of the loop.
  unfoldable pub take_draft : W → CommitmentDraft F → Time → ExtractResult → W × ExtractResult
  unfolding save_made drop_one
  take_draft w d now res =
      if fl.lt d.confidence min_confidence
      then (w, drop_one res)
      else save_made (svc.new_uuid w).1 (to_commitment d (svc.new_uuid w).0 now) res

  unfoldable pub take_drafts :
      W → List (CommitmentDraft F) → Time → ExtractResult → W × ExtractResult
  take_drafts w [] now res = (w, res)
  take_drafts w (d ∷ ds) now res =
      let (w', res') = take_draft w d now res in take_drafts w' ds now res'

  after_record : W × Option Error → Uuid → ExtractResult → W × ExtractResult
  after_record (w, some e) id res = (w, res)
  after_record (w, none) id res = (w, record res { decision_id = some id })

  -- The decision with its evidence, its inputs and its outcome.
  accounted : Decision F → ExtractInput → ExtractResult → Decision F
  accounted dec input res = record dec {
    context_refs = input.source_refs;
    inputs =
        ("owner_id", text input.owner_id)
        ∷ ("considered", count res.considered)
        ∷ ("min_confidence", number min_confidence)
        ∷ [];
    outcome =
        ("saved_ids", texts (map svc.string_of res.saved)) ∷ ("dropped", count res.dropped) ∷ [];
  }

  save_account : W → Result (Decision F) → ExtractInput → ExtractResult → W × ExtractResult
  unfolding after_record accounted
  save_account w (err e) input res = (w, res)
  save_account w (ok dec) input res =
      after_record (svc.save_decision w (accounted dec input res)) dec.id res

  -- One decision for the call.
  unfoldable pub record_account : W → ExtractInput → Time → ExtractResult → W × ExtractResult
  unfolding save_account
  record_account w input now res =
      let (id, w') = svc.new_uuid w in
      save_account w'
        (new_decision id "commitment.extract"
          (reason (length res.saved) res.considered min_confidence) (fl.hundredths 100) now)
        input res

  extract_drafts :
      W → Result (List (CommitmentDraft F)) → ExtractInput → Time → W × ExtractResult × Option Error
  extract_drafts w (err e) input now = (w, no_result, some e)
  extract_drafts w (ok drafts) input now =
      let (w', res) = take_drafts w drafts now (record no_result { considered = length drafts }) in
      let (w'', res') = record_account (counted w' (length res.saved)) input now res in
      (w'', res', none)

  unfoldable pub extract : W → ExtractInput → Time → W × ExtractResult × Option Error
  unfolding extract_drafts
  extract w input now = let (w', drafts) = extractor w input in extract_drafts w' drafts input now
