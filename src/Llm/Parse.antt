-- ===== src/Llm/Parse.antt =====
-- internal/llm/parse.go: the drafts in a model's reply. The reply is a native text, which stands for a Go
-- string of valid UTF-8: each byte that the code looks for is ASCII, so a walk over the characters meets
-- it where the walk over the bytes does. `json.Unmarshal`, `time.Parse` and the `%q` verb are parameters.
pub mod Brackets
pub mod Framed
pub mod Replies
pub mod Unclosed
pub mod Drafts
use Prim.Native.Char.{Char, code}
use Prim.Native.String.{◌++◌ as append}
use nous.Prelude.{
  ℕ, suc, ◌-◌, Bool, true, false, ◌&&◌, ◌||◌, Option, none, some, String, List, [], ◌∷◌, ◌⊎◌, inl,
  inr, ◌==◌, if◌then◌else◌, trim_space, str_eq,
}
use nous.Prelude.Time.{Time, utc}
use nous.Prelude.Float.{Float64}
use nous.Domain.Errors.{Result, ok, err, failure}
use nous.Domain.Types.{EntityRef}
use nous.Domain.Commitment.{CommitmentDraft}
use nous.Llm.Parse.Brackets.{trim_to_first_array}

pub record RawEntity : Type 0 where
  pub kind : String
  pub name : String

pub record RawDraft (F : Type 0) : Type 0 where
  pub description : String
  pub due_at : Option String
  pub confidence : F
  pub entities : List RawEntity

-- `strings.HasPrefix(s, "```")`
unfoldable pub starts_fence : String → Bool
starts_fence (String.◌∷◌ a (String.◌∷◌ b (String.◌∷◌ c s))) =
    code a == b'`' && code b == b'`' && code c == b'`'
starts_fence s = false

-- What stands after the first newline, if there is one.
unfoldable pub after_newline : String → Option String
after_newline String.[] = none
after_newline (String.◌∷◌ c s) =
    let rest = after_newline s in if code c == b'\n' then some s else rest

-- What stands before the last fence, if there is one: `here` is whether a fence begins at `c`.
abbrev pub back_to : Char → Bool → Option String → Option String
back_to c here (some t) = some (String.◌∷◌ c t)
back_to c here none = if here then some String.[] else none

unfoldable pub before_fence : String → Option String
unfolding starts_fence
before_fence String.[] = none
before_fence (String.◌∷◌ c s) = back_to c (starts_fence (String.◌∷◌ c s)) (before_fence s)

abbrev pub or_else {ℓ} : {A : Type ℓ} → Option A → A → A
or_else none a = a
or_else (some b) a = b

unfoldable pub strip_code_fences : String → String
unfolding starts_fence after_newline before_fence
strip_code_fences s =
    if starts_fence s
    then (let body = or_else (after_newline s) s in trim_space (or_else (before_fence body) body))
    else s

module _ {F : Type 0} ⦃fl : Float64 F⦄ where
  unfoldable pub clamp01 : F → F
  clamp01 v =
      if fl.lt v (fl.hundredths 0)
      then fl.hundredths 0
      else if fl.lt (fl.hundredths 100) v
      then fl.hundredths 100
      else v

abbrev pub layouts : List String
layouts =
    "2006-01-02T15:04:05.999999999Z07:00" ∷ "2006-01-02T15:04:05Z07:00" ∷ "2006-01-02T15:04:05"
    ∷ "2006-01-02 15:04:05" ∷ "2006-01-02" ∷ []

-- The loop over the entities.
unfoldable pub entities_from : List RawEntity → List EntityRef
entities_from [] = []
entities_from (e ∷ es) =
    let rest = entities_from es in
    let kind = trim_space e.kind in
    let name = trim_space e.name in
    if str_eq kind "" || str_eq name ""
    then rest
    else record { kind = kind; name = name; id = "" } ∷ rest

abbrev pub onto {ℓ} : {A : Type ℓ} → Option A → List A → List A
onto none xs = xs
onto (some x) xs = x ∷ xs

module _ (parse_time : String → String → Option Time) (quote : String → String) where
  -- The loop over the layouts.
  unfoldable pub try_layouts : List String → String → Result Time
  try_layouts [] s = err (failure (append "llm: cannot parse due_at " (quote s)))
  try_layouts (l ∷ ls) s = elim (parse_time l s) [ some t ↦ ok t | none ↦ try_layouts ls s ]

  unfoldable pub parse_flexible_time : String → Result Time
  unfolding try_layouts
  parse_flexible_time s = try_layouts layouts s

  abbrev due_of : Result Time → Option Time
  due_of (ok t) = some (utc t)
  due_of (err e) = none

  -- `if r.DueAt != nil && *r.DueAt != ""`
  unfoldable pub due_from : Option String → Option Time
  unfolding parse_flexible_time try_layouts
  due_from none = none
  due_from (some s) = if str_eq s "" then none else due_of (parse_flexible_time s)

  module _ {F : Type 0} ⦃fl : Float64 F⦄ where
    -- The body of the loop over the drafts.
    unfoldable pub draft_from : RawDraft F → Option (CommitmentDraft F)
    unfolding due_from entities_from clamp01
    draft_from r =
        let desc = trim_space r.description in
        if str_eq desc ""
        then none
        else some record {
          owner_id = "";
          description = desc;
          due_at = due_from r.due_at;
          entities = entities_from r.entities;
          source_refs = [];
          confidence = clamp01 r.confidence;
        }

    unfoldable pub drafts_from : List (RawDraft F) → List (CommitmentDraft F)
    drafts_from [] = []
    drafts_from (r ∷ rs) = onto (draft_from r) (drafts_from rs)

    abbrev pub decoded : String ⊎ List (RawDraft F) → Result (List (CommitmentDraft F))
    decoded (inl e) = err (failure (append "llm: parse drafts: " e))
    decoded (inr raws) = ok (drafts_from raws)

    module _ (unmarshal : String → String ⊎ List (RawDraft F)) where
      unfoldable pub parse_drafts : String → Result (List (CommitmentDraft F))
      unfolding strip_code_fences drafts_from
      parse_drafts reply =
          let cleaned = trim_to_first_array (strip_code_fences (trim_space reply)) in
          if str_eq cleaned "" || str_eq cleaned "[]" then ok [] else decoded (unmarshal cleaned)
