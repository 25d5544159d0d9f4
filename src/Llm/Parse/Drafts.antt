-- ===== src/Llm/Parse/Drafts.antt =====
-- internal/llm/parse.go, `parseDrafts`: what holds of every draft that it gives.
use nous.Prelude.{
  false, ◌||◌, Option, String, List, [], ◌∷◌, ◌⊎◌, inl, inr, ◌≡◌, refl, subst, All, arith,
  Bool-cases, trim_space, trim_space_idem, str_eq,
}
use nous.Prelude.Time.{Time}
use nous.Prelude.Float.{Float64, IsNumber, InUnit, outside_unit→InUnit, hundredths_le}
use nous.Domain.Errors.{ok, ok_same}
use nous.Domain.Types.{EntityRef}
use nous.Domain.Commitment.{CommitmentDraft}
use nous.Llm.Parse.{
  RawDraft, RawEntity, clamp01, entities_from, draft_from, onto, drafts_from, decoded, parse_drafts,
  strip_code_fences,
}
use nous.Llm.Parse.Brackets.{trim_to_first_array}

-- A text that is not empty and has no space at its ends.
abbrev pub IsWritten : String → Type 0
IsWritten s = (str_eq s "" ≡ false) × (trim_space s ≡ s)

abbrev pub IsNamed : EntityRef → Type 0
IsNamed e = IsWritten e.kind × IsWritten e.name

module _ {F : Type 0} ⦃fl : Float64 F⦄ where
  pub record IsClean (d : CommitmentDraft F) : Type 0 where
    pub described : IsWritten d.description
    pub confident : InUnit d.confidence
    pub named : All IsNamed d.entities
    pub unowned : d.owner_id ≡ ""
    pub unsourced : d.source_refs ≡ []

  pub clamp01-InUnit : (v : F) → IsNumber v → InUnit (clamp01 v)
  unfolding clamp01
  clamp01-InUnit v n = ground (
    arith,
    outside_unit→InUnit v n,
    hundredths_le fl 0 0 (omega arith) (omega arith),
    hundredths_le fl 0 100 (omega arith) (omega arith),
    hundredths_le fl 100 100 (omega arith) (omega arith),
  )

written : (s : String) → str_eq (trim_space s) "" ≡ false → IsWritten (trim_space s)
written s h = (h, trim_space_idem s)

entities_from-IsNamed : (es : List RawEntity) → All IsNamed (entities_from es)
unfolding entities_from
entities_from-IsNamed [] = tt
entities_from-IsNamed (e ∷ es) = elim (Bool-cases (str_eq (trim_space e.kind) "")) [
  | inl h ↦ rw h (entities_from-IsNamed es)
  | inr h ↦ elim (Bool-cases (str_eq (trim_space e.name) "")) [
    | inl k ↦ rw (h, k) (entities_from-IsNamed es)
    | inr k ↦ rw (h, k) ((written e.kind h, written e.name k), entities_from-IsNamed es)
  ]
]

module _ {F : Type 0} ⦃fl : Float64 F⦄ where
  -- Every confidence that the decoder read is a number, as every JSON number is.
  abbrev pub ReadsNumbers : List (RawDraft F) → Type 0
  ReadsNumbers rs = All (λ r. IsNumber r.confidence) rs

module _ (parse_time : String → String → Option Time) (quote : String → String) {F : Type 0}
    ⦃fl : Float64 F⦄ where
  onto-IsClean :
      (r : RawDraft F) (ds : List (CommitmentDraft F))
      → IsNumber r.confidence
      → All IsClean ds
      → All IsClean (onto (draft_from parse_time quote r) ds)
  unfolding draft_from
  onto-IsClean r ds n h = elim (Bool-cases (str_eq (trim_space r.description) "")) [
    | inl e ↦ rw e h
    | inr e ↦ rw e (
      record {
        described = written r.description e;
        confident = clamp01-InUnit r.confidence n;
        named = entities_from-IsNamed r.entities;
        unowned = refl;
        unsourced = refl;
      },
      h,
    )
  ]

  drafts_from-IsClean :
      (rs : List (RawDraft F)) → ReadsNumbers rs → All IsClean (drafts_from parse_time quote rs)
  unfolding drafts_from
  drafts_from-IsClean [] h = tt
  drafts_from-IsClean (r ∷ rs) h =
      onto-IsClean r (drafts_from parse_time quote rs) h.0 (drafts_from-IsClean rs h.1)

  decoded-IsClean :
      (u : String ⊎ List (RawDraft F)) {ds : List (CommitmentDraft F)}
      → ((rs : List (RawDraft F)) → u ≡ inr rs → ReadsNumbers rs)
      → decoded parse_time quote u ≡ ok ds
      → All IsClean ds
  decoded-IsClean (inl e) k h = cc
  decoded-IsClean (inr rs) k h =
      subst (All IsClean) (ok_same h) (drafts_from-IsClean rs (k rs refl))

  -- Every draft that a reply gives has a description and entities with no space at their ends and none of
  -- them empty, a confidence between 0 and 1 whatever the model wrote, and no owner and no sources yet; the
  -- decoder is assumed to read no NaN.
  pub parse_drafts-IsClean :
      (unmarshal : String → String ⊎ List (RawDraft F))
      → ((s : String) (rs : List (RawDraft F)) → unmarshal s ≡ inr rs → ReadsNumbers rs)
      → (reply : String) {ds : List (CommitmentDraft F)}
      → parse_drafts parse_time quote unmarshal reply ≡ ok ds
      → All IsClean ds
  unfolding parse_drafts
  parse_drafts-IsClean unmarshal k reply {ds} h =
      let cleaned = trim_to_first_array (strip_code_fences (trim_space reply)) in
      elim (Bool-cases (str_eq cleaned "" || str_eq cleaned "[]")) [
        | inl e ↦ subst (All IsClean) (ok_same (rw e at h)) tt
        | inr e ↦ decoded-IsClean (unmarshal cleaned) (k cleaned) (rw e at h)
      ]
