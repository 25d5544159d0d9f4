-- ===== src/Store/Memory/Scan.antt =====
-- The order of the worker's scan: `FindActive` of internal/store/memory/commitment_repo.go against the
-- contract of internal/ports/interfaces.go.
use mathlib.Core.List.{Perm}
use nous.Prelude.{
  refl, ◌≤◌, ◌<◌, ◌≡◌, sym, ◌⊎◌, inl, inr, Bool, true, false, Option, List, [], ◌∷◌, ◌++◌, arith,
  All, Bool-cases, length, subst, none, some, All-map,
}
use nous.Prelude.Int.{ℤ, pos, pos_part, ltb_ℤ}
use nous.Prelude.Time.{Time, before}
use nous.Prelude.Float.{Float64, IsNumber}
use nous.Domain.Commitment.{Commitment, is_active}
use nous.Store.Table.{values}
use nous.Store.Arrange.{Arrange, InOrder, IsWeakOrder}
use nous.Store.Memory.{State}
use nous.Store.Memory.Query.{keep, limit_to_split}
use nous.Store.Memory.Commitments.{due_before, scans_before, find_active}

due_asym :
    (d e : Option Time) (s t : Time)
    → due_before d e (before s t) ≡ true
    → due_before e d (before t s) ≡ false
unfolding due_before
due_asym d e s t h = ground arith

due_trans :
    (d e f : Option Time) (s t u : Time)
    → due_before e d (before t s) ≡ false
    → due_before f e (before u t) ≡ false
    → due_before f d (before u s) ≡ false
unfolding due_before
due_trans d e f s t u h k = ground arith

sooner_before : (s t : Time) (rest : Bool) → s < t → due_before (some s) (some t) rest ≡ true
unfolding due_before
sooner_before s t rest h = ground arith

older_before : (d : Option Time) (s t : Time) → s < t → due_before d d (before s t) ≡ true
unfolding due_before
older_before none s t h = ground arith
older_before (some d) s t h = ground arith

dated_before : (s : Time) (rest : Bool) → due_before (some s) none rest ≡ true
unfolding due_before
dated_before s rest = refl

module _ {F : Type 0} ⦃fl : Float64 F⦄ where
  scan_asym :
      (a b : Commitment F)
      → IsNumber a.risk_score
      → IsNumber b.risk_score
      → scans_before a b ≡ true
      → scans_before b a ≡ false
  unfolding scans_before
  scan_asym a b n m h = ground (
    arith,
    fl.eq_sym a.risk_score b.risk_score,
    fl.eq_sym b.risk_score a.risk_score,
    fl.lt_trans a.risk_score b.risk_score a.risk_score,
    fl.lt_irrefl a.risk_score,
    due_asym a.due_at b.due_at a.created_at b.created_at,
  )

  eq_trans : (x y z : F) → fl.eq x y ≡ true → fl.eq y z ≡ true → fl.eq x z ≡ true
  eq_trans x y z h k = ground (
    arith,
    fl.le_def x y,
    fl.le_def y z,
    fl.le_trans x y z,
    fl.eq_sym x y,
    fl.eq_sym y z,
    fl.le_def z y,
    fl.le_def y x,
    fl.le_trans z y x,
    fl.le_def x z,
    fl.lt_le_trans x z x,
    fl.lt_irrefl x,
  )

  scan_trans :
      (a b c : Commitment F)
      → IsNumber a.risk_score
      → IsNumber b.risk_score
      → IsNumber c.risk_score
      → scans_before b a ≡ false
      → scans_before c b ≡ false
      → scans_before c a ≡ false
  unfolding scans_before
  scan_trans a b c na nb nc h k =
      let x = a.risk_score in
      let y = b.risk_score in
      let z = c.risk_score in
      ground (
        arith,
        fl.eq_sym y x,
        fl.eq_sym z y,
        fl.eq_sym z x,
        fl.le_total x y,
        fl.le_def y x,
        fl.le_lt_trans y x z,
        fl.le_def z y,
        fl.lt_le_trans y z y,
        fl.lt_irrefl y,
        eq_trans z x y,
        eq_trans y z x,
        eq_trans z y x,
        fl.le_def x z,
        fl.lt_le_trans y x z,
        fl.eq_sym x y,
        due_trans a.due_at b.due_at c.due_at a.created_at b.created_at c.created_at,
      )

  scans-IsWeakOrder : IsWeakOrder (λ (c : Commitment F). IsNumber c.risk_score) scans_before
  scans-IsWeakOrder = record { asymmetric = scan_asym; transitive = scan_trans }

module _ {F : Type 0} ⦃fl : Float64 F⦄ where
  -- `a` has to be looked at before `b`: it is riskier; or as risky, and due earlier or due at all; or
  -- as risky and as urgent, and older.
  pub data Outranks (a b : Commitment F) : Type 0 where
    riskier : fl.lt b.risk_score a.risk_score ≡ true → Outranks a b
    sooner :
        (s t : Time)
        → fl.eq a.risk_score b.risk_score ≡ true
        → a.due_at ≡ some s
        → b.due_at ≡ some t
        → s < t
        → Outranks a b
    dated :
        (s : Time)
        → fl.eq a.risk_score b.risk_score ≡ true
        → a.due_at ≡ some s
        → b.due_at ≡ none
        → Outranks a b
    older :
        fl.eq a.risk_score b.risk_score ≡ true
        → a.due_at ≡ b.due_at
        → a.created_at < b.created_at
        → Outranks a b

  Outranks-scans : (a b : Commitment F) → Outranks a b → scans_before a b ≡ true
  unfolding scans_before
  Outranks-scans a b (riskier h) = ground (
    arith,
    fl.le_def a.risk_score b.risk_score,
    fl.le_lt_trans a.risk_score b.risk_score a.risk_score,
    fl.lt_irrefl a.risk_score,
  )
  Outranks-scans a b (sooner s t e d d' h) = rw (e, d, d') (sooner_before s t _ h)
  Outranks-scans a b (dated s e d d') =
      rw (e, d, d') (dated_before s (before a.created_at b.created_at))
  Outranks-scans a b (older e d h) = rw (e, d) (older_before b.due_at _ _ h)

  -- No row stands behind one that it outranks.
  abbrev pub IsRanked : List (Commitment F) → Type 0
  IsRanked [] = Unit
  IsRanked (x ∷ xs) = All (λ y. ¬ Outranks y x) xs × IsRanked xs

  InOrder-IsRanked : (xs : List (Commitment F)) → InOrder scans_before xs → IsRanked xs
  InOrder-IsRanked [] h = tt
  InOrder-IsRanked (x ∷ xs) h =
      (All-map xs (λ y e o. cc (e, Outranks-scans y x o)) h.0, InOrder-IsRanked xs h.1)

pub All-keep {ℓ κ} :
    {A : Type ℓ} (P : A → Type κ) (p : A → Bool) (xs : List A) → All P xs → All P (keep p xs)
unfolding keep
All-keep P p [] h = tt
All-keep P p (x ∷ xs) h = elim (Bool-cases (p x)) [
  | inl e ↦ rw e (h.0, All-keep P p xs h.1)
  | inr e ↦ rw e (All-keep P p xs h.1)
]

module _ {F : Type 0} ⦃fl : Float64 F⦄ where
  -- Where no stored score is NaN, `FindActive` returns the most urgent active commitments: with some
  -- rest they are a permutation of the active rows, in which no row stands behind one that it outranks
  -- by risk, due time and age; a positive limit is kept, and rows are left out only if the limit is positive and reached.
  pub find_active_lem :
      (rows : Arrange (Commitment F)) (s : State F) (limit : ℤ)
      → All (λ (c : Commitment F). IsNumber c.risk_score) (values s.commitments)
      → (rest : List (Commitment F)) × Perm
          (find_active rows s limit ++ rest)
          (keep (λ (c : Commitment F). is_active c.status) (values s.commitments))
        × IsRanked (find_active rows s limit ++ rest)
        × ((ltb_ℤ (pos 0) limit ≡ false) ⊎ (length (find_active rows s limit) ≤ pos_part limit))
        × ((rest ≡ [])
            ⊎ ((ltb_ℤ (pos 0) limit ≡ true) × (length (find_active rows s limit) ≡ pos_part limit)))
  unfolding find_active
  find_active_lem rows s limit h =
      let active = keep (λ (c : Commitment F). is_active c.status) (values s.commitments) in
      let sorted = rows.arrange scans_before active in
      let (rest, e, bound, full) = limit_to_split limit sorted in
      (
        rest,
        subst (λ xs. Perm xs active) (sym e) (rows.arrange-perm scans_before active),
        subst IsRanked (sym e) (
            InOrder-IsRanked sorted (
              rows.arrange-InOrder (λ c. IsNumber c.risk_score) scans_before active
                scans-IsWeakOrder
                (All-keep (λ c. IsNumber c.risk_score) (λ c. is_active c.status)
                  (values s.commitments) h))),
        bound,
        full,
      )
