-- ===== src/Domain/Commitment/Validity.antt =====
-- What `Validate`, `NewCommitment`, `ToCommitment` and `Transition` of
-- internal/domain/commitment.go promise of a commitment.
use nous.Prelude.{
  String, ◌≡◌, ◌≢◌, refl, ◌↔◌, true, false, Option, none, List, [], ◌∷◌, arith, eq_iff, trim_space,
  trim_space_idem,
}
use nous.Prelude.Time.{Time}
use nous.Prelude.Float.{Float64, outside_unit, IsNumber, zero_in_unit}
use nous.Domain.Errors.{Uuid, ok, IsOk}
use nous.Domain.Commitment.{
  CommitmentStatus, pending, unknown, valid, Commitment, CommitmentDraft, validate, new_commitment,
  transition, to_commitment, can_transition_to,
}
use nous.Domain.Lifecycle.{calls}

valid_iff : (s : CommitmentStatus) → (valid s ≡ true) ↔ ((t : String) → s ≢ unknown t)
unfolding valid
valid_iff (unknown s) = (λ h. cc, λ h. absurd (h s refl))
valid_iff s = (λ h t e. cc, λ h. refl)

-- Where a status may go, it goes to a known one.
valid-can_transition_to :
    (s t : CommitmentStatus) → can_transition_to s t ≡ true → valid s ≡ true → valid t ≡ true
unfolding can_transition_to valid
valid-can_transition_to (unknown s) (unknown t) h v = cc
valid-can_transition_to s t h v = ground arith

module _ {F : Type 0} ⦃fl : Float64 F⦄ where
  -- What a stored commitment satisfies, field by field.
  pub record IsValid (c : Commitment F) : Type 0 where
    pub id_set : c.id ≢ 0
    pub owned : c.owner_id ≢ ""
    pub described : c.description ≢ ""
    pub confident : outside_unit c.confidence ≡ false
    pub scored : outside_unit c.risk_score ≡ false
    pub known : (s : String) → c.status ≢ unknown s

  validate_sound : (c : Commitment F) → validate c ≡ none → IsValid c
  unfolding validate
  validate_sound c h = record {
    id_set = ground arith;
    owned = ground (arith, eq_iff c.owner_id "");
    described = ground (arith, eq_iff c.description "");
    confident = ground arith;
    scored = ground arith;
    known = (valid_iff c.status).0 (ground arith);
  }

  validate_complete : (c : Commitment F) → IsValid c → validate c ≡ none
  unfolding validate
  validate_complete c v =
      ground (arith, eq_iff c.owner_id "", eq_iff c.description "", (valid_iff c.status).1 v.known)

  -- `Validate` returns no error exactly for the commitments that have every field in order.
  pub validate_iff : (c : Commitment F) → (validate c ≡ none) ↔ IsValid c
  validate_iff c = (validate_sound c, validate_complete c)

  pub new_commitment-IsValid :
      (id : Uuid) (owner description : String) (due : Option Time) (x : F) (now : Time)
      {c : Commitment F}
      → new_commitment id owner description due x now ≡ ok c
      → IsValid c
        × (c.status ≡ pending)
        × (trim_space c.owner_id ≡ c.owner_id)
        × (trim_space c.description ≡ c.description)
        × (c.confidence ≡ x)
  unfolding new_commitment
  new_commitment-IsValid id owner description due x now {c} h = (
    validate_sound c (ground arith),
    ground arith,
    ground (arith, trim_space_idem owner),
    ground (arith, trim_space_idem description),
    ground arith,
  )

  -- `NewCommitment` returns no error exactly if the drawn identifier is not nil, neither the owner nor
  -- the description is blank, and the confidence passes the range test.
  pub new_commitment_accepts :
      (id : Uuid) (owner description : String) (due : Option Time) (x : F) (now : Time)
      → IsOk (new_commitment id owner description due x now) ↔ (
          (id ≢ 0)
          × (trim_space owner ≢ "")
          × (trim_space description ≢ "")
          × (outside_unit x ≡ false))
  unfolding new_commitment
  new_commitment_accepts id owner description due x now = (
    λ h. ground (arith, eq_iff (trim_space owner) "", eq_iff (trim_space description) ""),
    λ h.
        ground (
          arith,
          zero_in_unit fl,
          eq_iff (trim_space owner) "",
          eq_iff (trim_space description) "",
        ),
  )

  transition-validate :
      (c : Commitment F) (t : CommitmentStatus) (now : Time)
      → validate c ≡ none
      → validate (transition c t now).0 ≡ none
  unfolding validate transition
  transition-validate c t now h = ground (arith, valid-can_transition_to c.status t)

  -- Calls of `Transition`, refused or not, keep a commitment valid.
  pub calls-IsValid :
      (c : Commitment F) (ops : List (CommitmentStatus × Time))
      → IsValid c
      → IsValid (calls transition c ops)
  unfolding calls
  calls-IsValid c [] v = v
  calls-IsValid c ((t, now) ∷ ops) v =
      calls-IsValid (transition c t now).0 ops
        (validate_sound _ (transition-validate c t now (validate_complete c v)))

  -- What `ToCommitment` returns without an error is a valid pending commitment with the draft's
  -- entities, evidence, due time and confidence.
  pub to_commitment-IsValid :
      (d : CommitmentDraft F) (id : Uuid) (now : Time) {c : Commitment F}
      → to_commitment d id now ≡ ok c
      → IsValid c
        × (c.status ≡ pending)
        × (c.entities ≡ d.entities)
        × (c.source_refs ≡ d.source_refs)
        × (c.due_at ≡ d.due_at)
        × (c.confidence ≡ d.confidence)
  unfolding to_commitment
  to_commitment-IsValid d id now {c} h = (
    validate_sound c (unfold validate in ground arith),
    ground arith,
    ground arith,
    ground arith,
    ground arith,
    ground arith,
  )

  -- NaN is below nothing and above nothing, so the range test lets it through.
  pub validate_nan :
      (c : Commitment F) (x : F)
      → ¬ IsNumber x
      → validate c ≡ none
      → validate (record c { confidence = x }) ≡ none
  unfolding validate
  validate_nan c x n h =
      ground (arith, fl.lt_ordered x (fl.hundredths 0), fl.lt_ordered (fl.hundredths 100) x)
