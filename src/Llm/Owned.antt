-- ===== src/Llm/Owned.antt =====
-- internal/llm: the three extractors give every draft an owner and the sources of the input.
use nous.Prelude.{
  ℕ, false, some, String, List, [], ◌∷◌, ◌++◌, map, ◌≡◌, refl, subst, All, Bool-cases, inl, inr,
  str_eq,
}
use nous.Domain.Errors.{Error, Result, ok, err, ok_same}
use nous.Domain.Types.{SourceRef}
use nous.Domain.Commitment.{CommitmentDraft}
use nous.Pipeline.Extract.{ExtractInput}
use nous.Llm.Context.{ContextBudget}
use nous.Llm.Router.{AbRouter, PromptVariant, pick, route, builder_of}
use nous.Llm.Extractor.{
  annotate, annotated, or_default, llm_extract, ScriptRule, triggered, scripted_extract, fitted,
}

or_default_solid :
    (value fallback : String)
    → str_eq fallback "" ≡ false
    → str_eq (or_default value fallback) "" ≡ false
or_default_solid value fallback h = elim (Bool-cases (str_eq value "")) [
  | inl e ↦ rw e h
  | inr e ↦ rw e e
]

module _ {F : Type 0} where
  -- The draft has an owner, and its sources end in those of the input.
  pub record IsOwned (input : ExtractInput) (d : CommitmentDraft F) : Type 0 where
    pub owned : str_eq d.owner_id "" ≡ false
    pub own_refs : List SourceRef
    pub sourced : d.source_refs ≡ own_refs ++ input.source_refs

  annotate-IsOwned :
      (input : ExtractInput)
      → str_eq input.owner_id "" ≡ false
      → (d : CommitmentDraft F) → IsOwned input (annotate input d)
  unfolding annotate
  annotate-IsOwned input h d = record {
    owned = or_default_solid d.owner_id input.owner_id h;
    own_refs = d.source_refs;
    sourced = refl;
  }

  annotate_each :
      (input : ExtractInput)
      → str_eq input.owner_id "" ≡ false
      → (ds : List (CommitmentDraft F)) → All (IsOwned input) (map (annotate input) ds)
  annotate_each input h [] = tt
  annotate_each input h (d ∷ ds) = (annotate-IsOwned input h d, annotate_each input h ds)

  annotated-IsOwned :
      (input : ExtractInput)
      → str_eq input.owner_id "" ≡ false
      → (r : Result (List (CommitmentDraft F))) {ds : List (CommitmentDraft F)}
      → annotated input r ≡ ok ds
      → All (IsOwned input) ds
  annotated-IsOwned input h (ok es) e =
      subst (All (IsOwned input)) (ok_same e) (annotate_each input h es)
  annotated-IsOwned input h (err x) e = cc

  -- The scripted extractor gives the drafts of the first rule that triggered, with an owner and the sources of
  -- the input, if the input has an owner.
  pub scripted-IsOwned :
      (rules : List (ScriptRule F)) (input : ExtractInput) {ds : List (CommitmentDraft F)}
      → str_eq input.owner_id "" ≡ false
      → scripted_extract rules input ≡ ok ds
      → All (IsOwned input) ds
  unfolding scripted_extract
  scripted-IsOwned [] input h e = subst (All (IsOwned input)) (ok_same e) tt
  scripted-IsOwned (r ∷ rs) input h e = elim (Bool-cases (triggered r.trigger input.text)) [
    | inl k ↦ annotated-IsOwned input h (ok r.drafts) (rw k at e)
    | inr k ↦ scripted-IsOwned rs input h (rw k at e)
  ]

  module _ {W : Type 0} (provider : W → String → W × Result (List (CommitmentDraft F))) where
    -- Every draft of the model's extractor has an owner, if the input has one, and its sources end in those of the
    -- input, whatever the provider answers.
    pub llm_extract-IsOwned :
        (text_of : Error → String) (build : String → String) (budget : ContextBudget) (w : W)
        (input : ExtractInput) {ds : List (CommitmentDraft F)}
        → str_eq input.owner_id "" ≡ false
        → (llm_extract provider text_of build budget w input).1 ≡ ok ds
        → All (IsOwned input) ds
    unfolding llm_extract
    llm_extract-IsOwned text_of build budget w input h e = annotated-IsOwned input h _ e

    -- A routed extraction asks the provider with the variant that the owner falls to and notes its label;
    -- its drafts have an owner, if the input has one, and end in the sources of the input.
    pub route-IsOwned :
        (hash : String → ℕ) (default_builder : String → String) (r : AbRouter) (w : W)
        (input : ExtractInput) (v : PromptVariant)
        → str_eq input.owner_id "" ≡ false
        → pick hash r input.owner_id ≡ some v
        → (s : AbRouter) × (a : W × Result (List (CommitmentDraft F))) × (route hash default_builder
              provider r w input
            ≡ some (s, a))
          × (s.last_label ≡ v.label)
          × (s.variants ≡ r.variants)
          × ((ds : List (CommitmentDraft F)) → a.1 ≡ ok ds → All (IsOwned input) ds)
    unfolding route
    route-IsOwned hash b r w input v h e =
        let build = builder_of b v.builder in
        let a = provider w (build (fitted build r.budget input.text)) in
        (
          record r { last_label = v.label },
          (a.0, annotated input a.1),
          rw e refl,
          refl,
          refl,
          λ ds k. annotated-IsOwned input h a.1 k,
        )
