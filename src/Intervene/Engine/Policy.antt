-- ===== src/Intervene/Engine/Policy.antt =====
-- What the policy of internal/intervention/engine.go promises for any configuration.
use mathlib.Core.List.{Memᴰ}
use nous.Prelude.{
  ◌≡◌, ◌≢◌, refl, ◌↔◌, inl, inr, true, false, none, some, String, List, [], ◌∷◌, arith, eq_iff,
  trim_space, All, Bool-cases, sym, subst,
}
use nous.Prelude.Time.{Time}
use nous.Prelude.Float.{Float64, IsNumber}
use nous.Domain.Errors.{Uuid, ok}
use nous.Domain.Commitment.{Commitment}
use nous.Domain.Intervention.{
  Intervention, suggestion, escalation, automation, pending, validate, valid_type,
}
use nous.Domain.Intervention.Validity.{IsValid, intervention_validate_iff}
use nous.Risk.Types.{RiskFactor, RiskAssessment}
use nous.Intervene.Engine.{Config, heaviest, top_reason, choose, maybe_intervene}

module _ {F : Type 0} ⦃fl : Float64 F⦄ where
  -- The type that is chosen, read off both thresholds; a suggestion is never made.
  pub choose_exact :
      (cfg : Config F) (a : RiskAssessment F)
      → ((choose cfg a ≡ escalation) ↔ (fl.le cfg.escalate_threshold a.score ≡ true))
        × ((choose cfg a ≡ automation) ↔ (
            (fl.le cfg.escalate_threshold a.score ≡ false)
            × (fl.le cfg.automation_confidence a.confidence ≡ true)
            × (fl.le cfg.nudge_threshold a.score ≡ true)))
        × (choose cfg a ≢ suggestion)
  unfolding choose
  choose_exact cfg a = (
    (λ h. ground arith, λ h. ground arith),
    (λ h. ground arith, λ h. ground arith),
    λ h. ground arith,
  )

  valid_type-choose : (cfg : Config F) (a : RiskAssessment F) → valid_type (choose cfg a) ≡ true
  unfolding choose valid_type
  valid_type-choose cfg a = ground arith

  heaviest-Memᴰ :
      (top : RiskFactor F) (fs : List (RiskFactor F)) → Memᴰ (heaviest top fs) (top ∷ fs)
  unfolding heaviest
  heaviest-Memᴰ top [] = Memᴰ.head refl
  heaviest-Memᴰ top (f ∷ fs) = elim (Bool-cases (fl.lt top.weight f.weight)) [
    | inl e ↦ rw e (Memᴰ.tail (heaviest-Memᴰ f fs))
    | inr e ↦ rw e (skip_second (heaviest-Memᴰ top fs))
  ]
    where
      skip_second : {g : RiskFactor F} → Memᴰ g (top ∷ fs) → Memᴰ g (top ∷ f ∷ fs)
      skip_second (Memᴰ.head e) = Memᴰ.head e
      skip_second (Memᴰ.tail m) = Memᴰ.tail (Memᴰ.tail m)

  -- `f` is no heavier than `g`.
  abbrev pub NotHeavier : RiskFactor F → RiskFactor F → Type 0
  NotHeavier g f = fl.lt g.weight f.weight ≡ false

  heaviest_later :
      (top f : RiskFactor F) (fs : List (RiskFactor F))
      → fl.lt top.weight f.weight ≡ true
      → heaviest top (f ∷ fs) ≡ heaviest f fs
  unfolding heaviest
  heaviest_later top f fs e = rw e

  heaviest_first :
      (top f : RiskFactor F) (fs : List (RiskFactor F))
      → fl.lt top.weight f.weight ≡ false
      → heaviest top (f ∷ fs) ≡ heaviest top fs
  unfolding heaviest
  heaviest_first top f fs e = rw e

  heaviest_max :
      (top : RiskFactor F) (fs : List (RiskFactor F))
      → All (λ f. IsNumber f.weight) (top ∷ fs)
      → All (NotHeavier (heaviest top fs)) (top ∷ fs)
  heaviest_max top [] n = unfold heaviest in (fl.lt_irrefl top.weight, tt)
  heaviest_max top (f ∷ fs) n = elim (Bool-cases (fl.lt top.weight f.weight)) [
    | inl e ↦
        (let ih = heaviest_max f fs (n.1.0, n.1.1) in
          subst (λ g. All (NotHeavier g) (top ∷ f ∷ fs)) (sym (heaviest_later top f fs e))
            (ground (arith, fl.lt_trans (heaviest f fs).weight top.weight f.weight, ih.0), ih))
    | inr e ↦
        (let ih = heaviest_max top fs (n.0, n.1.1) in
          subst (λ g. All (NotHeavier g) (top ∷ f ∷ fs)) (sym (heaviest_first top f fs e))
            (
              ih.0,
              (
                ground (
                  arith,
                  fl.le_total top.weight f.weight,
                  fl.lt_le_trans (heaviest top fs).weight f.weight top.weight,
                  ih.0,
                  n.0,
                  n.1.0,
                ),
                ih.1,
              ),
            ))
  ]

  top_reason_split :
      (a : RiskAssessment F) (fs : List (RiskFactor F))
      → a.factors ≡ fs
      → fs ≢ []
      → All (λ f. IsNumber f.weight) fs
      → (g : RiskFactor F) × Memᴰ g fs × (top_reason a ≡ g.reason) × All (NotHeavier g) fs
  unfolding top_reason
  top_reason_split a [] e ne n = absurd (ne refl)
  top_reason_split a (f ∷ fs) e ne n =
      (heaviest f fs, heaviest-Memᴰ f fs, rw e, heaviest_max f fs n)

  -- Where some factor is listed and no weight is NaN, the reason given is that of a listed factor that
  -- no listed factor outweighs.
  pub top_reason_max :
      (a : RiskAssessment F)
      → a.factors ≢ []
      → All (λ f. IsNumber f.weight) a.factors
      → (g : RiskFactor F) × Memᴰ g a.factors
        × (top_reason a ≡ g.reason)
        × All (NotHeavier g) a.factors
  top_reason_max a ne n = top_reason_split a a.factors refl ne n

  module _ (sprintf : String → F → F → String → String) where
    -- The policy stays silent exactly below the nudge threshold.
    pub silent_iff :
        (cfg : Config F) (id : Uuid) (c : Commitment F) (a : RiskAssessment F) (now : Time)
        → (maybe_intervene sprintf cfg id c a now ≡ ok none)
          ↔ (fl.lt a.score cfg.nudge_threshold ≡ true)
    unfolding maybe_intervene
    silent_iff cfg id c a now = (λ h. ground arith, λ h. ground arith)

    -- Where the score is not below the nudge threshold, the drawn identifier is not nil and messages are
    -- not blank, the policy returns a valid pending intervention for the commitment, of the chosen type
    -- and with no action attached.
    pub fires :
        (cfg : Config F) (id : Uuid) (c : Commitment F) (a : RiskAssessment F) (now : Time)
        → id ≢ 0
        → ((d : String) (x y : F) (r : String) → trim_space (sprintf d x y r) ≢ "")
        → fl.lt a.score cfg.nudge_threshold ≡ false
        → (iv : Intervention) × (maybe_intervene sprintf cfg id c a now ≡ ok (some iv))
          × IsValid iv
          × (iv.status ≡ pending)
          × (iv.type ≡ choose cfg a)
          × (iv.commitment_id ≡ some c.id)
          × (iv.suggested_action ≡ none)
    unfolding maybe_intervene
    fires cfg id c a now i m h =
        let iv : Intervention = record {
          id = id;
          commitment_id = some c.id;
          task_id = none;
          type = choose cfg a;
          message = trim_space (sprintf c.description a.score a.confidence (top_reason a));
          suggested_action = none;
          status = pending;
          triggered_at = now;
          resolved_at = none;
        } in
        let v : validate iv ≡ none =
          unfold validate in
          ground (
            arith,
            valid_type-choose cfg a,
            eq_iff (trim_space (sprintf c.description a.score a.confidence (top_reason a))) "",
            m c.description a.score a.confidence (top_reason a),
          ) in
        (iv, rw h (rw v), (intervention_validate_iff iv).0 v, refl, refl, refl, refl)
