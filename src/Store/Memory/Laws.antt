-- ===== src/Store/Memory/Laws.antt =====
-- What a caller of the commitment repository of internal/store/memory/commitment_repo.go observes.
-- `string_of` is `uuid.UUID.String`, of which it is used that different identifiers have different texts.
use nous.Prelude.{
  ◌≡◌, refl, inl, inr, false, none, some, String, arith, str_eq, eq_iff, ◌==◌, ◌&&◌, if◌then◌else◌,
  All, Option-cases, ap,
}
use nous.Prelude.Time.{Time}
use nous.Prelude.Float.{Float64, outside_unit}
use nous.Domain.Errors.{Uuid, Error, Result, ok, err, commitment_not_found}
use nous.Domain.Commitment.{Commitment, validate}
use nous.Store.Table.{lookup, insert, values, lookup-insert, All-insert, All-lookup}
use nous.Store.Memory.{State}
use nous.Store.Memory.Query.{accepted}
use nous.Store.Memory.Commitments.{save, get, update_risk}

pub string_eq :
    (string_of : Uuid → String) (a b : Uuid)
    → ((a b : Uuid) → string_of a ≡ string_of b → a ≡ b)
    → str_eq (string_of a) (string_of b) ≡ (a == b)
string_eq string_of a b inj =
    ground (arith, eq_iff (string_of a) (string_of b), inj a b, ap string_of)

module _ {F : Type 0} ⦃fl : Float64 F⦄ (string_of : Uuid → String) where
  -- Every stored commitment passes its own validation.
  abbrev pub AllValid : State F → Type 0
  AllValid s = All (λ (c : Commitment F). validate c ≡ none) (values s.commitments)

  save_accepted :
      (s : State F) (c : Commitment F)
      → validate c ≡ none
      → save string_of s c
        ≡ (record s { commitments = insert (string_of c.id) c s.commitments }, none)
  unfolding save
  save_accepted s c h = ground arith

  save_refused :
      (s : State F) (c : Commitment F) (e : Error)
      → validate c ≡ some e
      → save string_of s c ≡ (s, some e)
  unfolding save
  save_refused s c e h = ground arith

  -- Where different identifiers have different texts, `Get` after `Save` returns the saved commitment
  -- under its identifier if `Validate` accepts it, and in every other case what it returned before.
  pub get-save :
      (s : State F) (c : Commitment F) (j : Uuid)
      → ((a b : Uuid) → string_of a ≡ string_of b → a ≡ b)
      → get string_of (save string_of s c).0 j
        ≡ (if accepted (validate c) && c.id == j then ok c else get string_of s j)
  unfolding get
  get-save s c j inj = elim (Option-cases (validate c)) [
    | inl h ↦
        rw (save_accepted s c h)
          (rw h (rw lookup-insert (rw (string_eq string_of c.id j inj) (ground arith))))
    | inr (e, h) ↦ rw (save_refused s c e h) (rw h refl)
  ]

  -- `Save` keeps the store valid, whether it accepts or refuses.
  pub save-AllValid :
      (s : State F) (c : Commitment F) → AllValid s → AllValid (save string_of s c).0
  save-AllValid s c h = elim (Option-cases (validate c)) [
    | inl v ↦
        rw (save_accepted s c v) (
          All-insert (λ (d : Commitment F). validate d ≡ none) (string_of c.id) c s.commitments v h)
    | inr (e, v) ↦ rw (save_refused s c e v) h
  ]

  -- The commitment with a new score, as `UpdateRisk` stores it.
  abbrev pub rescored : Commitment F → F → Time → Commitment F
  rescored c score now = record c {
    risk_score = score;
    last_evaluated_at = some now;
    updated_at = now;
  }

  pub update_found :
      (s : State F) (id : Uuid) (score : F) (now : Time) (c : Commitment F)
      → lookup (string_of id) s.commitments ≡ some c
      → update_risk string_of s id score now ≡ (
        record s { commitments = insert (string_of id) (rescored c score now) s.commitments },
        none,
      )
  unfolding update_risk
  update_found s id score now c h = ground arith

  pub update_missing :
      (s : State F) (id : Uuid) (score : F) (now : Time)
      → lookup (string_of id) s.commitments ≡ none
      → update_risk string_of s id score now ≡ (s, some (commitment_not_found id))
  unfolding update_risk
  update_missing s id score now h = ground arith

  abbrev pub rescore_result : Result (Commitment F) → F → Time → Result (Commitment F)
  rescore_result (ok c) score now = ok (rescored c score now)
  rescore_result (err e) score now = err e

  -- Where different identifiers have different texts, `Get` after `UpdateRisk` returns the commitment
  -- with this identifier, if there is one, with the new score and the two times and no other change,
  -- and under every other identifier what it returned before.
  pub get-update_risk :
      (s : State F) (id j : Uuid) (score : F) (now : Time)
      → ((a b : Uuid) → string_of a ≡ string_of b → a ≡ b)
      → get string_of (update_risk string_of s id score now).0 j
        ≡ (if id == j then rescore_result (get string_of s j) score now else get string_of s j)
  unfolding get
  get-update_risk s id j score now inj = elim (Option-cases (lookup (string_of id) s.commitments)) [
    | inl h ↦ rw (update_missing s id score now h) (ground arith)
    | inr (c, h) ↦
        rw (update_found s id score now c h)
          (rw lookup-insert (rw (string_eq string_of id j inj) (ground arith)))
  ]

  rescored-validate :
      (c : Commitment F) (score : F) (now : Time)
      → outside_unit score ≡ false
      → validate c ≡ none
      → validate (rescored c score now) ≡ none
  unfolding validate
  rescored-validate c score now o h = ground arith

  -- `UpdateRisk` with a score that passes the range test keeps the store valid.
  pub update_risk-AllValid :
      (s : State F) (id : Uuid) (score : F) (now : Time)
      → outside_unit score ≡ false
      → AllValid s
      → AllValid (update_risk string_of s id score now).0
  update_risk-AllValid s id score now o h =
      elim (Option-cases (lookup (string_of id) s.commitments)) [
        | inl m ↦ rw (update_missing s id score now m) h
        | inr (c, m) ↦ rw (update_found s id score now c m) (
            All-insert (λ (d : Commitment F). validate d ≡ none) (string_of id)
              (rescored c score now) s.commitments
              (rescored-validate c score now o (
                All-lookup (λ (d : Commitment F). validate d ≡ none) (string_of id) s.commitments h
                  m))
              h)
      ]
