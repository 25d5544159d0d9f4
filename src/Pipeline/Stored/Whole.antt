-- ===== src/Pipeline/Stored/Whole.antt =====
-- The loop of internal/pipeline/evaluate.go over the store of internal/store/memory: what stands in the store at its end for
-- each commitment.
use mathlib.Core.List.{append-nil, append_assoc}
use nous.Prelude.{
  ◌≡◌, ◌≢◌, refl, sym, ap, ◌∙◌, subst, false, Option, none, some, String, List, [], ◌∷◌, ◌++◌,
  arith, All, All-map, length, str_eq, eq_iff, Option-cases, inl, inr,
}
use nous.Prelude.Time.{Time, Duration}
use nous.Prelude.Float.{Float64, outside_unit}
use nous.Domain.Errors.{Uuid, Error, ok_same}
use nous.Domain.Types.{ChronosSignal, MemoryRef}
use nous.Domain.Commitment.{Commitment}
use nous.Domain.Decision.{Decision}
use nous.Risk.Engine
use nous.Risk.Engine.{evaluate_commitment}
use nous.Intervene.Engine as Policy
use nous.Store.Table.{Table, lookup, insert, lookup-insert, lookup-insert_self}
use nous.Store.Arrange.{Arrange}
use nous.Store.Memory.{State}
use nous.Store.Memory.Commitments.{find_active}
use nous.Store.Memory.Laws.{rescored}
use nous.Pipeline.Evaluate.{
  EvaluateOptions, EvaluateResult, evaluate_one, evaluate_all, evaluate, empty_result,
}
use nous.Pipeline.Evaluate.Keeps.{one_go}
use nous.Pipeline.Stored.{Outside, stored}
use nous.Pipeline.Stored.Repository.{IsSound, IsStored, stored-Contract}
use nous.Pipeline.Stored.Tables.{IsRecord}
use nous.Pipeline.Stored.Covers.{IsEvaluated, one-IsEvaluated}

-- No two have the same text.
abbrev pub Apart : {A : Type 0} → (A → String) → List A → Type 0
Apart text [] = Unit
Apart text (x ∷ xs) = All (λ y. str_eq (text y) (text x) ≡ false) xs × Apart text xs

str_eq_flip : (s t : String) → str_eq s t ≡ false → str_eq t s ≡ false
str_eq_flip s t h = ground (arith, eq_iff s t, eq_iff t s)

lookup-insert_else :
    {V : Type 0} (k j : String) (v : V) (m : Table V)
    → str_eq k j ≡ false
    → lookup j (insert k v m) ≡ lookup j m
lookup-insert_else k j v m h = rw lookup-insert (rw h refl)

module _ {F : Type 0} ⦃fl : Float64 F⦄ (string_of : Uuid → String) (risk : Engine.Config F)
    (now : Time) where
  abbrev key : Commitment F → String
  key c = string_of c.id

  -- From `start` to `s` the row of commitment `c` has got the score of an assessment of `c` at this time and that time, and no
  -- other change; the decision `i` is there and says the same.
  pub record IsCovered (start : State F) (c : Commitment F) (i : Uuid) (s : State F) : Type 0 where
    pub signals : List (ChronosSignal F)
    pub memories : List MemoryRef
    pub row : Commitment F
    pub was : lookup (string_of c.id) start.commitments ≡ some row
    pub scored :
        lookup (string_of c.id) s.commitments
        ≡ some (rescored string_of row (evaluate_commitment risk c signals memories now).score now)
    pub decision : Decision F
    pub recorded : lookup (string_of i) s.decisions ≡ some decision
    pub agrees : IsRecord string_of c (evaluate_commitment risk c signals memories now) decision

  -- One decision for each commitment, in order.
  abbrev pub AllCovered : State F → List (Commitment F) → List Uuid → State F → Type 0
  AllCovered start [] [] s = Unit
  AllCovered start [] (i ∷ is) s = ⊥
  AllCovered start (c ∷ cs) [] s = ⊥
  AllCovered start (c ∷ cs) (i ∷ is) s = IsCovered start c i s × AllCovered start cs is s

  -- What does not touch the rows of these commitments may come before.
  AllCovered-from :
      (start mid : State F) (cs : List (Commitment F)) (is : List Uuid) (s : State F)
      → All (λ c. lookup (key c) mid.commitments ≡ lookup (key c) start.commitments) cs
      → AllCovered mid cs is s
      → AllCovered start cs is s
  AllCovered-from start mid [] [] s e h = tt
  AllCovered-from start mid [] (i ∷ is) s e h = h
  AllCovered-from start mid (c ∷ cs) [] s e h = h
  AllCovered-from start mid (c ∷ cs) (i ∷ is) s e h = (
    record {
      signals = h.0.signals;
      memories = h.0.memories;
      row = h.0.row;
      was = sym e.0 ∙ h.0.was;
      scored = h.0.scored;
      decision = h.0.decision;
      recorded = h.0.recorded;
      agrees = h.0.agrees;
    },
    AllCovered-from start mid cs is s e.1 h.1,
  )

module _ {F X : Type 0} ⦃fl : Float64 F⦄ (rows : Arrange (Commitment F)) (out : Outside F X)
    (draws : (x : X) → (out.new_uuid x).0 ≢ 0) (risk : Engine.Config F) (policy : Policy.Config F)
    (uncancelled : (x : X) → out.cancelled x ≡ none) (lookback : Duration) (now : Time) where
  record IsDone (w : State F × X) (cs : List (Commitment F)) (res : EvaluateResult)
      (r : (State F × X) × EvaluateResult × Option Error) : Type 0 where
    ids : List Uuid
    reported : r.1.decisions ≡ res.decisions ++ ids
    rows_else :
        (k : String)
        → All (λ (c : Commitment F). str_eq (out.string_of c.id) k ≡ false) cs
        → lookup k r.0.0.commitments ≡ lookup k w.0.commitments
    ledger_else :
        (k : String)
        → All (λ i. str_eq (out.string_of i) k ≡ false) ids
        → lookup k r.0.0.decisions ≡ lookup k w.0.decisions
    covers :
        Apart (λ (c : Commitment F). out.string_of c.id) cs
        → Apart out.string_of ids
        → AllCovered out.string_of risk now w.0 cs ids r.0.0

  abbrev IsReady : State F × X → Commitment F → Type 0
  IsReady w c = IsStored {X = X} out.string_of w c.id × (outside_unit c.confidence ≡ false)

  step-IsDone :
      (w : State F × X) (c row : Commitment F) (cs : List (Commitment F)) (res : EvaluateResult)
      (signals : List (ChronosSignal F)) (memories : List MemoryRef)
      (r : (State F × X) × EvaluateResult) (end : (State F × X) × EvaluateResult × Option Error)
      → lookup (out.string_of c.id) w.0.commitments ≡ some row
      → IsEvaluated rows out draws risk policy w c row
          (evaluate_commitment risk c signals memories now)
          now
          res
          r
      → IsDone r.0 cs r.1 end
      → IsDone w (c ∷ cs) res end
  step-IsDone w c row cs res signals memories r end was one rest = record {
    ids = one.decision.id ∷ rest.ids;
    reported =
        rest.reported
        ∙ ap (λ xs. xs ++ rest.ids) one.reported
        ∙ append_assoc res.decisions (one.decision.id ∷ []) rest.ids;
    rows_else = λ k h.
        rest.rows_else k h.1
        ∙ ap (lookup k) one.tables.rows
        ∙ lookup-insert_else (out.string_of c.id) k _ w.0.commitments h.0;
    ledger_else = λ k h.
        rest.ledger_else k h.1
        ∙ ap (lookup k) one.tables.ledger
        ∙ lookup-insert_else (out.string_of one.decision.id) k _ w.0.decisions h.0;
    covers = λ h i. (
      record {
        signals = signals;
        memories = memories;
        row = row;
        was = was;
        scored =
            rest.rows_else (out.string_of c.id) h.0
            ∙ ap (lookup (out.string_of c.id)) one.tables.rows
            ∙ lookup-insert_self (out.string_of c.id) _ w.0.commitments;
        decision = one.decision;
        recorded =
            rest.ledger_else (out.string_of one.decision.id) i.0
            ∙ ap (lookup (out.string_of one.decision.id)) one.tables.ledger
            ∙ lookup-insert_self (out.string_of one.decision.id) _ w.0.decisions;
        agrees = one.recorded;
      },
      AllCovered-from out.string_of risk now w.0 r.0.0 cs rest.ids end.0.0
          (All-map cs
            (λ d e.
              ap (lookup (out.string_of d.id)) one.tables.rows
              ∙ lookup-insert_else (out.string_of c.id) (out.string_of d.id) _ w.0.commitments
                  (str_eq_flip (out.string_of d.id) (out.string_of c.id) e))
            h.0)
          (rest.covers h.1 i.1),
    );
  }

  found_row :
      (w : State F × X) (i : Uuid)
      → IsStored {X = X} out.string_of w i
      → (row : Commitment F) × (lookup (out.string_of i) w.0.commitments ≡ some row)
  found_row w i h = elim (Option-cases (lookup (out.string_of i) w.0.commitments)) [
    | inl e ↦ absurd (ground arith)
    | inr r ↦ r
  ]

  evaluate_all-IsDone :
      (cs : List (Commitment F)) (w : State F × X) (res : EvaluateResult)
      → All (IsReady w) cs
      → IsDone w cs res (evaluate_all (stored rows out) risk policy w cs lookback now res)
  unfolding evaluate_all
  evaluate_all-IsDone [] w res h = record {
    ids = [];
    reported = sym (append-nil res.decisions);
    rows_else = λ k h. refl;
    ledger_else = λ k h. refl;
    covers = λ h i. tt;
  }
  evaluate_all-IsDone (c ∷ cs) w res h =
      let r = evaluate_one (stored rows out) risk policy w c lookback now res in
      let (row, l) = found_row w c.id h.0.0 in
      let (signals, memories, one) =
        one-IsEvaluated rows out draws risk policy w c row lookback now res l h.0.1 in
      let on =
        one_go (stored rows out) risk policy _ _ (stored-Contract rows out draws) w c lookback now
          res in
      let later : All (IsReady r.0) cs = All-map cs (λ d e. (on.stays d.id e.0, e.1)) h.1 in
      rw (uncancelled w.1) (
        step-IsDone w c row cs res signals memories r _ l one
          (evaluate_all-IsDone cs r.0 r.1 later))

module _ {F X : Type 0} ⦃fl : Float64 F⦄ (rows : Arrange (Commitment F)) (out : Outside F X)
    (draws : (x : X) → (out.new_uuid x).0 ≢ 0) (risk : Engine.Config F) (policy : Policy.Config F)
    (uncancelled : (x : X) → out.cancelled x ≡ none) where
  pub evaluate-AllCovered :
      (s : State F) (x : X) (opts : EvaluateOptions) (now : Time)
      → IsSound {X = X} out.string_of (s, x)
      → Apart (λ (c : Commitment F). out.string_of c.id) (find_active rows s opts.limit)
      → Apart out.string_of (evaluate (stored rows out) risk policy (s, x) opts now).1.decisions
      → let done = evaluate (stored rows out) risk policy (s, x) opts now in
        AllCovered out.string_of risk now s
          (find_active rows s opts.limit)
          done.1.decisions
          done.0.0
  unfolding evaluate
  evaluate-AllCovered s x opts now h apart fresh =
      let k = stored-Contract rows out draws in
      let w : State F × X = (s, out.inc_evaluations_run x) in
      let cs = find_active rows s opts.limit in
      let (ds, e, ready) = k.scan w opts.limit h in
      let all =
        subst
          (λ xs.
            All
              (λ (c : Commitment F).
                IsStored {X = X} out.string_of w c.id × (outside_unit c.confidence ≡ false))
              xs)
          (sym (ok_same e)) ready in
      let done =
        evaluate_all-IsDone rows out draws risk policy uncancelled opts.signal_lookback now cs w
          (empty_result (length cs)) all in
      rw done.reported (done.covers apart (rw done.reported at fresh))
