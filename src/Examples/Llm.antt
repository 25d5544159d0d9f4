-- ===== src/Examples/Llm.antt =====
-- Replies of a model, texts that do not fit, and a split of traffic.
use Prim.Native.String.{◌++◌ as append}
use nous.Prelude.{
  ◌≤◌, ◌%◌, Option, none, some, String, List, [], ◌∷◌, ◌⊎◌, inl, inr, ◌≡◌, refl, arith, All,
  if◌then◌else◌, str_eq, subst, Bool-cases, trim_space, trim_left, is_space,
}
use nous.Prelude.Int.{pos, pos_part, sub_ℤ}
use nous.Prelude.Time.{Time}
use nous.Prelude.Float.Milli.{Milli, num, milli_float}
use nous.Domain.Errors.{ok}
use nous.Domain.Commitment.{CommitmentDraft}
use nous.Store.Arrange.Insertion.{insertion, sort_by, insert_by}
use nous.Llm.Parse.{RawDraft, parse_drafts, decoded, starts_fence, draft_from}
use nous.Llm.Parse.Framed.{IsBalanced, array_of}
use nous.Llm.Parse.Replies.{fence, fenced, parse-fenced, parse-framed}
use nous.Llm.Parse.Unclosed.{parse-unclosed}
use nous.Llm.Parse.Drafts.{IsClean, ReadsNumbers, parse_drafts-IsClean}
use nous.Llm.Parse.Brackets.{trim_to_first_array}
use nous.Llm.Context.{split_rune, ContextBudget, estimate_tokens, available, fit_text, marker}
use nous.Llm.Context.Fits.{fit_text-fits}
use nous.Llm.Context.Ends.{fit_text_unbroken}
use nous.Llm.Router.{AbRouter, PromptVariant, by_label, kept_variants, total_of, set_variants, pick}
use nous.Llm.Router.Shares.{IsShare, pick-IsShare}

-- One draft, whose confidence is above 1.
abbrev raw : RawDraft Milli
raw = record { description = " call Bob "; due_at = none; confidence = num 1500; entities = [] }

abbrev read_json : String → String ⊎ List (RawDraft Milli)
read_json s =
    if str_eq s "[]"
    then inr []
    else if str_eq s "[{}]"
    then inr (raw ∷ [])
    else inl "unexpected end of JSON input"

abbrev no_time : String → String → Option Time
no_time layout s = none

abbrev quoted : String → String
quoted s = s

braces : IsBalanced "{}"
braces = IsBalanced.plain "{" "}" refl refl (IsBalanced.plain "}" "" refl refl IsBalanced.empty)

parse-fenced_example :
    parse_drafts no_time quoted read_json (fenced "json" (array_of "{}"))
    ≡ decoded no_time quoted (read_json (array_of "{}"))
parse-fenced_example =
    parse-fenced no_time quoted read_json "json" "{}" (refl, (refl, (refl, (refl, tt)))) braces refl

parse-framed_example :
    parse_drafts no_time quoted read_json (append "So:" (append (array_of "{}") "!"))
    ≡ decoded no_time quoted (read_json (array_of "{}"))
unfolding starts_fence trim_left is_space
parse-framed_example =
    parse-framed no_time quoted read_json "So:" "{}" "!" (refl, (refl, (refl, tt))) refl braces refl

parse-unclosed_example : parse_drafts no_time quoted read_json (fence "[{}]") ≡ ok []
parse-unclosed_example =
    parse-unclosed no_time quoted read_json "[{}]" (refl, (refl, (refl, (refl, tt))))
      (refl, (refl, (refl, (refl, tt))))

inr_same : {A B : Type 0} {a b : B} → ◌≡◌ {A = A ⊎ B} (inr a) (inr b) → a ≡ b
inr_same e = cc e

inl_not_inr : {A B : Type 0} {a : A} {b : B} → ◌≡◌ {A = A ⊎ B} (inl a) (inr b) → ⊥
inl_not_inr e = cc e

read_numbers : (s : String) (rs : List (RawDraft Milli)) → read_json s ≡ inr rs → ReadsNumbers rs
read_numbers s rs h = elim (Bool-cases (str_eq s "[]")) [
  | inl a ↦ subst ReadsNumbers (inr_same (rw a at h)) tt
  | inr a ↦ elim (Bool-cases (str_eq s "[{}]")) [
    | inl b ↦ subst ReadsNumbers (inr_same (rw (a, b) at h)) (refl, tt)
    | inr b ↦ absurd (inl_not_inr (rw (a, b) at h))
  ]
]

-- The draft that the code makes of it.
abbrev call_bob : CommitmentDraft Milli
call_bob = record {
  owner_id = "";
  description = "call Bob";
  due_at = none;
  entities = [];
  source_refs = [];
  confidence = num 1000;
}

called : parse_drafts no_time quoted read_json "[{}]" ≡ ok (call_bob ∷ [])
unfolding parse_drafts trim_space trim_to_first_array draft_from
called = refl

parse_drafts-IsClean_example : All IsClean (call_bob ∷ [])
parse_drafts-IsClean_example =
    parse_drafts-IsClean no_time quoted read_json read_numbers "[{}]" called

-- Four tokens are left for a text of fifty.
abbrev small : ContextBudget
small = record { max_input_tokens = pos 10; headroom_tokens = pos 2 }

abbrev long_word : String
long_word = "aaaaaaaaaabbbbbbbbbbccccccccccddddddddddeeeeeeeeee"

fit_text-fits_example :
    (estimate_tokens (fit_text long_word (pos 4) small)
      ≤ pos_part (sub_ℤ (available small) (pos 4)))
    × (estimate_tokens long_word ≤ pos_part (sub_ℤ (available small) (pos 4))
        → fit_text long_word (pos 4) small ≡ long_word)
fit_text-fits_example = fit_text-fits long_word (pos 4) small

fit_text_unbroken_example : fit_text long_word (pos 4) small ≡ marker
unfolding available estimate_tokens split_rune
fit_text_unbroken_example =
    fit_text_unbroken long_word (pos 4) small (omega arith, omega arith) search

abbrev plain : String → String
plain s = s

abbrev short : PromptVariant
short = record { label = "short"; weight = pos 1; builder = some plain }

abbrev detailed : PromptVariant
detailed = record { label = "detailed"; weight = pos 3; builder = some plain }

abbrev idle : AbRouter
idle = record { budget = small; variants = []; total = 0; last_label = "" }

abbrev routing : AbRouter
routing = record idle { variants = detailed ∷ short ∷ []; total = 4 }

routing_set : set_variants plain insertion (short ∷ detailed ∷ []) idle ≡ (routing, none)
unfolding set_variants sort_by insert_by
routing_set = refl

pick-IsShare_example :
    (v : PromptVariant) × (pick (λ s. 7) routing "ada" ≡ some v)
    × IsShare
        (insertion.arrange by_label (kept_variants plain (short ∷ detailed ∷ [])))
        (7 % total_of (short ∷ detailed ∷ []))
        v
pick-IsShare_example =
    pick-IsShare (λ s. 7) plain insertion (short ∷ detailed ∷ []) idle routing routing_set "ada"
