-- ===== src/Llm/Prompt.antt =====
-- internal/llm/llm_extractor.go, `PromptBuilder`. `json.Marshal` of an example's drafts and the `%d` verb are
-- parameters; an example that does not marshal loses its output line.
use Prim.Native.String.{◌++◌ as append}
use nous.Prelude.{ℕ, suc, Option, none, some, String, List, [], ◌∷◌}

pub record FewShotDraft (F : Type 0) : Type 0 where
  pub description : String
  pub due_at : Option String
  pub confidence : F

pub record FewShotExample (F : Type 0) : Type 0 where
  pub input : String
  pub output : List (FewShotDraft F)

pub record PromptBuilder (F : Type 0) : Type 0 where
  pub version : String
  pub system_prompt : String
  pub examples : List (FewShotExample F)

abbrev pub default_system_prompt : String
default_system_prompt =
    "You are an expert at extracting commitments from text.\nExtract commitments, promises, and action items.\nReturn a JSON array of objects with these fields:\n  - description (string, required)\n  - due_at (RFC 3339 timestamp or null)\n  - confidence (number in [0.0, 1.0])\n  - entities (array of {kind, name} objects, optional)\nReturn only the JSON array. No prose, no code fences. If there are no commitments, return [].\nIf unsure about a commitment, set confidence < 0.5."

module _ {F : Type 0} (ninety : F) where
  abbrev default_examples : List (FewShotExample F)
  default_examples =
      record {
        input = "I'll send the report by Friday.";
        output =
            record {
              description = "send the report";
              due_at = some "2026-05-02T15:00:00Z";
              confidence = ninety;
            }
            ∷ [];
      }
      ∷ record {
        input = "Just thinking out loud, maybe we'd consider rolling that out next quarter.";
        output = [];
      }
      ∷ []

  -- `NewPromptBuilder` with no options.
  abbrev pub new_prompt_builder : PromptBuilder F
  new_prompt_builder = record {
    version = "v2";
    system_prompt = default_system_prompt;
    examples = default_examples;
  }

module _ {F : Type 0} (decimal : ℕ → String) (marshal : List (FewShotDraft F) → Option String) where
  abbrev output_line : ℕ → Option String → String → String
  output_line n none rest = rest
  output_line n (some raw) rest =
      append "Example " (append (decimal n) (append " output: " (append raw (append "\n\n" rest))))

  -- The loop over the examples, numbered from `n`, with what is written after it.
  unfoldable pub write_examples : ℕ → List (FewShotExample F) → String → String
  write_examples n [] rest = rest
  write_examples n (e ∷ es) rest = append "Example " (
      append (decimal n) (
        append " input: " (
          append e.input
            (append "\n" (output_line n (marshal e.output) (write_examples (suc n) es rest))))))

  unfoldable pub build : PromptBuilder F → String → String
  unfolding write_examples
  build b input = append b.system_prompt (
      append "\n\n" (
        write_examples 1 b.examples
          (append "Input: " (append input "\nOutput (JSON only, no prose): "))))
