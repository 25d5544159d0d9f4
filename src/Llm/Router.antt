-- ===== src/Llm/Router.antt =====
-- internal/llm/ab_prompt.go: traffic is split across prompt variants by a hash of the owner. `hash` is
-- FNV-1a of the owner's bytes and `arrange` is `sort.SliceStable`; a builder is a prompt's function. The sum
-- of the weights is below 2^63. The mutex makes each method one step.
pub mod Shares
use nous.Prelude.{
  ℕ, ◌+◌, ◌-◌, ◌%◌, Bool, true, false, Option, none, some, String, List, [], ◌∷◌, ◌++◌, ◌==◌,
  if◌then◌else◌,
}
use Prim.Native.String.{compare}
use text.Mathlib.Text.{is_lt}
use nous.Prelude.Int.{ℤ, pos, pos_part, ltb_ℤ, leb_ℤ, sub_ℤ}
use nous.Domain.Errors.{Error, failure, Result, ok, err}
use nous.Domain.Commitment.{CommitmentDraft}
use nous.Pipeline.Extract.{ExtractInput}
use nous.Store.Arrange.{Arrange}
use nous.Llm.Context.{ContextBudget}
use nous.Llm.Extractor.{annotated, annotate, fitted}

pub record PromptVariant : Type 0 where
  pub label : String
  pub weight : ℤ
  pub builder : Option (String → String)

pub record AbRouter : Type 0 where
  pub budget : ContextBudget
  pub variants : List PromptVariant
  pub total : ℕ
  pub last_label : String

abbrev pub by_label : PromptVariant → PromptVariant → Bool
by_label v u = is_lt (compare v.label u.label)

-- `v.Weight <= 0`
abbrev pub skipped : PromptVariant → Bool
skipped v = leb_ℤ v.weight (pos 0)

-- What the loop of `SetVariants` adds to `total`; only positive weights are added.
unfoldable pub total_of : List PromptVariant → ℕ
total_of [] = 0
total_of (v ∷ vs) = let rest = total_of vs in if skipped v then rest else pos_part v.weight + rest

module _ (default_builder : String → String) where
  abbrev pub builder_of : Option (String → String) → String → String
  builder_of none = default_builder
  builder_of (some b) = b

  -- And what it appends to `cp`.
  unfoldable pub kept_variants : List PromptVariant → List PromptVariant
  kept_variants [] = []
  kept_variants (v ∷ vs) =
      let rest = kept_variants vs in
      if skipped v then rest else record v { builder = some (builder_of v.builder) } ∷ rest

  unfoldable pub set_variants :
      Arrange PromptVariant → List PromptVariant → AbRouter → AbRouter × Option Error
  unfolding kept_variants total_of
  set_variants rows [] r = (r, some (failure "ab: at least one variant required"))
  set_variants rows (v ∷ vs) r =
      if total_of (v ∷ vs) == 0 then (r, some (failure "ab: total weight is zero")) else (
        record r {
          variants = rows.arrange by_label (kept_variants (v ∷ vs));
          total = total_of (v ∷ vs);
        },
        none,
      )

-- `r.variants[len(r.variants)-1]`; `none` is a panic.
abbrev last_of : List PromptVariant → Option PromptVariant
last_of [] = none
last_of (v ∷ []) = some v
last_of (v ∷ u ∷ vs) = last_of (u ∷ vs)

-- The loop of `pick`.
unfoldable pub bucket_in : ℤ → List PromptVariant → Option PromptVariant
bucket_in bucket [] = none
bucket_in bucket (v ∷ vs) =
    let rest = bucket_in (sub_ℤ bucket v.weight) vs in
    if ltb_ℤ bucket v.weight then some v else rest

abbrev or_last : Option PromptVariant → List PromptVariant → Option PromptVariant
or_last (some v) vs = some v
or_last none vs = last_of vs

module _ (hash : String → ℕ) where
  unfoldable pub pick_from : List PromptVariant → ℕ → String → Option PromptVariant
  unfolding bucket_in
  pick_from (v ∷ []) total owner = some v
  pick_from vs total owner = or_last (bucket_in (pos (hash owner % total)) vs) vs

  unfoldable pub pick : AbRouter → String → Option PromptVariant
  unfolding pick_from
  pick r owner = pick_from r.variants r.total owner

  module _ {F W : Type 0} (default_builder : String → String)
      (provider : W → String → W × Result (List (CommitmentDraft F))) where
    -- `Extract` with the variant picked; `none` is a panic.
    abbrev pub extract_with :
        Option PromptVariant
        → AbRouter
        → W
        → ExtractInput
        → Option (AbRouter × (W × Result (List (CommitmentDraft F))))
    extract_with none r w input = none
    extract_with (some v) r w input =
        let build = builder_of default_builder v.builder in
        let a = provider w (build (fitted build r.budget input.text)) in
        some (record r { last_label = v.label }, (a.0, annotated input a.1))

    unfoldable pub route :
        AbRouter → W → ExtractInput → Option (AbRouter × (W × Result (List (CommitmentDraft F))))
    unfolding pick annotate fitted
    route r w input = extract_with (pick r input.owner_id) r w input
