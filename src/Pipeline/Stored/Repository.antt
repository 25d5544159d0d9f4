-- ===== src/Pipeline/Stored/Repository.antt =====
-- The repositories of internal/store/memory meet the contract of a pass, whatever the clients do.
use nous.Prelude.{
  ◌≡◌, ◌≢◌, refl, subst, ap, true, false, Option, none, some, String, List, arith, All-map,
  Option-cases, inl, inr, some_same,
}
use nous.Prelude.Time.{Time}
use nous.Prelude.Float.{Float64, outside_unit}
use nous.Domain.Errors.{Uuid, Result}
use nous.Domain.Types.{ChronosSignal}
use nous.Domain.Commitment.{Commitment, validate}
use nous.Domain.Decision.{Decision}
use nous.Domain.Decision as Decision
use nous.Domain.Intervention.{Intervention, ActionRequest}
use nous.Ports.{SignalFilter, RecallQuery, MnemosEvent}
use nous.Store.Table.{lookup}
use nous.Store.Arrange.{Arrange}
use nous.Store.Memory.{State}
use nous.Store.Memory.Commitments.{update_risk, find_active}
use nous.Store.Memory.Laws.{AllValid, rescored, update_found, update_missing, update_risk-AllValid}
use nous.Store.Memory.Keyed.{
  IsKeyed, IsKeyed-insert, IsKeyed-lookup, has, has-insert, find_active-has,
}
use nous.Store.Memory.Decisions as Ledger
use nous.Store.Memory.Interventions as Nudges
use nous.Pipeline.Services.{Mnemos}
use nous.Pipeline.Stored.{Outside, stored, lift_mnemos, lift_chronos, lift_praxis}
use nous.Pipeline.Evaluate.Contract.{Onward, Contract}

module _ {F S X : Type 0} where
  pub recall_beside :
      (o : Option (Mnemos F X)) (m : Mnemos F (S × X))
      → lift_mnemos o ≡ some m
      → (w : S × X) (q : RecallQuery) → (m.recall w q).0.0 ≡ w.0
  recall_beside none m e w q = absurd (cc e)
  recall_beside (some o) m e w q =
      subst (λ (m : Mnemos F (S × X)). (m.recall w q).0.0 ≡ w.0) (some_same e) refl

  pub append_beside :
      (o : Option (Mnemos F X)) (m : Mnemos F (S × X))
      → lift_mnemos o ≡ some m
      → (w : S × X) (v : MnemosEvent F) → (m.append_event w v).0.0 ≡ w.0
  append_beside none m e w v = absurd (cc e)
  append_beside (some o) m e w v =
      subst (λ (m : Mnemos F (S × X)). (m.append_event w v).0.0 ≡ w.0) (some_same e) refl

  pub signals_beside :
      (o : Option (X → SignalFilter → X × Result (List (ChronosSignal F))))
      (f : S × X → SignalFilter → (S × X) × Result (List (ChronosSignal F)))
      → lift_chronos o ≡ some f
      → (w : S × X) (q : SignalFilter) → (f w q).0.0 ≡ w.0
  signals_beside none f e w q = absurd (cc e)
  signals_beside (some o) f e w q =
      subst
        (λ (f : S × X → SignalFilter → (S × X) × Result (List (ChronosSignal F))).
          (f w q).0.0 ≡ w.0)
        (some_same e) refl

module _ {S X : Type 0} where
  pub dry_run_beside :
      (o : Option (X → ActionRequest → X)) (f : S × X → ActionRequest → S × X)
      → lift_praxis o ≡ some f
      → (w : S × X) (r : ActionRequest) → (f w r).0 ≡ w.0
  dry_run_beside none f e w r = absurd (cc e)
  dry_run_beside (some o) f e w r =
      subst (λ (f : S × X → ActionRequest → S × X). (f w r).0 ≡ w.0) (some_same e) refl

module _ {F : Type 0} ⦃fl : Float64 F⦄ (string_of : Uuid → String) where
  ledger_table :
      (s : State F) (d : Decision F) → (Ledger.save string_of s d).0.commitments ≡ s.commitments
  unfolding Ledger.save
  ledger_table s d = ground arith

  ledger_accepts :
      (s : State F) (d : Decision F)
      → Decision.validate d ≡ none
      → (Ledger.save string_of s d).1 ≡ none
  unfolding Ledger.save
  ledger_accepts s d h = ground arith

  pub nudge_table :
      (s : State F) (iv : Intervention) → (Nudges.save string_of s iv).0.commitments ≡ s.commitments
  unfolding Nudges.save
  nudge_table s iv = ground arith

  update-IsKeyed :
      (s : State F) (id : Uuid) (score : F) (now : Time)
      → IsKeyed string_of s.commitments
      → IsKeyed string_of (update_risk string_of s id score now).0.commitments
  update-IsKeyed s id score now h = elim (Option-cases (lookup (string_of id) s.commitments)) [
    | inl m ↦ rw (update_missing string_of s id score now m) h
    | inr (c, m) ↦ rw (update_found string_of s id score now c m) (
        IsKeyed-insert string_of (string_of id) (rescored string_of c score now) s.commitments
          (IsKeyed-lookup string_of (string_of id) s.commitments c h m) h)
  ]

  update_has :
      (s : State F) (id : Uuid) (score : F) (now : Time) (k : String)
      → has string_of k s.commitments ≡ true
      → has string_of k (update_risk string_of s id score now).0.commitments ≡ true
  update_has s id score now k h = elim (Option-cases (lookup (string_of id) s.commitments)) [
    | inl m ↦ rw (update_missing string_of s id score now m) h
    | inr (c, m) ↦
        rw (update_found string_of s id score now c m)
          (has-insert string_of k (string_of id) (rescored string_of c score now) s.commitments h)
  ]

  update_accepts :
      (s : State F) (id : Uuid) (score : F) (now : Time)
      → has string_of (string_of id) s.commitments ≡ true
      → (update_risk string_of s id score now).1 ≡ none
  unfolding update_risk
  update_accepts s id score now h = ground arith

  in_range : (c : Commitment F) → validate c ≡ none → outside_unit c.confidence ≡ false
  unfolding validate
  in_range c h = ground arith

module _ {F X : Type 0} ⦃fl : Float64 F⦄ (string_of : Uuid → String) where
  -- Every stored commitment is valid and stands under its identifier.
  abbrev pub IsSound : State F × X → Type 0
  IsSound w = AllValid string_of w.0 × IsKeyed string_of w.0.commitments

  -- A commitment with this identifier is in the store.
  abbrev pub IsStored : State F × X → Uuid → Type 0
  IsStored w i = has string_of (string_of i) w.0.commitments ≡ true

  same_table :
      (w w' : State F × X) → w'.0.commitments ≡ w.0.commitments → Onward IsSound IsStored w w'
  same_table w w' e = record { kept = λ h. (rw e h.0, rw e h.1); stays = λ i h. rw e h }

  same_store : (w w' : State F × X) → w'.0 ≡ w.0 → Onward IsSound IsStored w w'
  same_store w w' e = same_table w w' (ap (λ (s : State F). s.commitments) e)

module _ {F X : Type 0} ⦃fl : Float64 F⦄ (rows : Arrange (Commitment F)) (out : Outside F X)
    (draws : (x : X) → (out.new_uuid x).0 ≢ 0) where
  -- The contract, given that no drawn identifier is the nil one.
  pub stored-Contract : Contract (stored rows out) (IsSound out.string_of) (IsStored out.string_of)
  stored-Contract = record {
    update_on = λ w id score now o. record {
      kept = λ h. (
        update_risk-AllValid out.string_of w.0 id score now o h.0,
        update-IsKeyed out.string_of w.0 id score now h.1,
      );
      stays = λ i h. update_has out.string_of w.0 id score now (out.string_of i) h;
    };
    decision_on = λ w d. same_table out.string_of w _ (ledger_table out.string_of w.0 d);
    aside = record {
      intervention_on = λ w iv. same_table out.string_of w _ (nudge_table out.string_of w.0 iv);
      recall_on = λ m e w q. same_store out.string_of w _ (recall_beside out.mnemos m e w q);
      append_on = λ m e w v. same_store out.string_of w _ (append_beside out.mnemos m e w v);
      signals_on = λ f e w q. same_store out.string_of w _ (signals_beside out.chronos f e w q);
      dry_run_on = λ f e w r. same_store out.string_of w _ (dry_run_beside out.praxis f e w r);
      uuid_on = λ w. same_store out.string_of w _ refl;
      runs_on = λ w. same_store out.string_of w _ refl;
      score_on = λ w x. same_store out.string_of w _ refl;
      created_on = λ w. same_store out.string_of w _ refl;
    };
    scan = λ w limit h. (
      find_active rows w.0 limit,
      refl,
      All-map (find_active rows w.0 limit)
          (λ c e. (ground (arith, e), in_range out.string_of c (ground (arith, e))))
          (find_active-has out.string_of rows w.0 limit h.0 h.1),
    );
    updates = λ w id score now h. update_accepts out.string_of w.0 id score now h;
    decides = λ w d h. ledger_accepts out.string_of w.0 d h;
    draws = λ w. draws w.1;
  }
