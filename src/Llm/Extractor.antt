-- ===== src/Llm/Extractor.antt =====
-- internal/llm/llm_extractor.go and scripted.go: the extractors that turn a text into drafts. The provider is
-- a parameter on a world `W`; a prompt is built by any function `build`, so that the facts hold of every
-- prompt builder.
use Prim.Native.String.{◌++◌ as append}
use nous.Prelude.{
  Bool, false, Option, none, some, String, List, [], ◌∷◌, ◌++◌, map, if◌then◌else◌, str_eq,
}
use nous.Prelude.Int.{pos, ltb_ℤ}
use nous.Domain.Errors.{Error, failure, Result, ok, err}
use nous.Domain.Commitment.{CommitmentDraft}
use nous.Pipeline.Extract.{ExtractInput}
use nous.Llm.Context.{ContextBudget, estimate_tokens, fit_text}

-- `orDefault`
abbrev pub or_default : String → String → String
or_default value fallback = if str_eq value "" then fallback else value

module _ {F : Type 0} where
  -- The body of the loop over the drafts; the copy that `append(append(nil, a...), b...)` makes is a value here.
  unfoldable pub annotate : ExtractInput → CommitmentDraft F → CommitmentDraft F
  annotate input d = record d {
    owner_id = or_default d.owner_id input.owner_id;
    source_refs = d.source_refs ++ input.source_refs;
  }

  abbrev pub annotated :
      ExtractInput → Result (List (CommitmentDraft F)) → Result (List (CommitmentDraft F))
  annotated input (ok ds) = ok (map (annotate input) ds)
  annotated input (err e) = err e

-- The text that goes into the prompt.
unfoldable pub fitted : (String → String) → ContextBudget → String → String
unfolding fit_text estimate_tokens
fitted build budget text =
    if ltb_ℤ (pos 0) budget.max_input_tokens
    then fit_text text (pos (estimate_tokens (build ""))) budget
    else text

-- `fmt.Errorf("llm extract: %w", err)`; `text_of` is `Error()`.
abbrev pub wrapped {ℓ} : {A : Type ℓ} → (Error → String) → String → Result A → Result A
wrapped text_of prefix (ok a) = ok a
wrapped text_of prefix (err e) = err (failure (append prefix (text_of e)))

module _ {F W : Type 0} (provider : W → String → W × Result (List (CommitmentDraft F))) where
  module _ (text_of : Error → String) (build : String → String) (budget : ContextBudget) where
    -- `LLMExtractor.Extract`
    unfoldable pub llm_extract : W → ExtractInput → W × Result (List (CommitmentDraft F))
    unfolding fitted annotate
    llm_extract w input =
        let r = provider w (build (fitted build budget input.text)) in
        (r.0, annotated input (wrapped text_of "llm extract: " r.1))

pub record ScriptRule (F : Type 0) : Type 0 where
  pub trigger : Option (String → Bool)
  pub drafts : List (CommitmentDraft F)

abbrev pub triggered : Option (String → Bool) → String → Bool
triggered none text = false
triggered (some p) text = p text

module _ {F : Type 0} where
  -- `ScriptedExtractor.Extract`
  unfoldable pub scripted_extract :
      List (ScriptRule F) → ExtractInput → Result (List (CommitmentDraft F))
  unfolding annotate
  scripted_extract [] input = ok []
  scripted_extract (r ∷ rs) input =
      let rest = scripted_extract rs input in
      if triggered r.trigger input.text then ok (map (annotate input) r.drafts) else rest
