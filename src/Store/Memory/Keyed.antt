-- ===== src/Store/Memory/Keyed.antt =====
-- The key of a row in internal/store/memory/commitment_repo.go is the text of its identifier, so
-- every row that a query returns can be found again by its identifier.
use nous.Prelude.{
  ◌≡◌, Bool, true, false, ◌&&◌, none, some, String, List, [], ◌∷◌, arith, str_eq, eq_iff, All,
  All-map, All-both, All-take, length, Bool-cases, inl, inr,
}
use nous.Prelude.Int.{ℤ, pos, pos_part, ltb_ℤ}
use nous.Prelude.Float.{Float64}
use nous.Domain.Errors.{Uuid}
use nous.Domain.Commitment.{Commitment, validate, is_active}
use nous.Store.Table.{Table, lookup, insert, values, lookup-insert}
use nous.Store.Arrange.{Arrange, All-arrange}
use nous.Store.Memory.{State}
use nous.Store.Memory.Query.{limit_to, accepted}
use nous.Store.Memory.Commitments.{find_active, scans_before}
use nous.Store.Memory.Laws.{AllValid}
use nous.Store.Memory.Scan.{All-keep}

module _ {F : Type 0} (string_of : Uuid → String) where
  -- Every row stands under its own identifier.
  abbrev pub IsKeyed : Table (Commitment F) → Type 0
  IsKeyed m = All (λ (e : String × Commitment F). e.0 ≡ string_of e.1.id) m

  pub IsKeyed-insert :
      (k : String) (c : Commitment F) (m : Table (Commitment F))
      → k ≡ string_of c.id
      → IsKeyed m
      → IsKeyed (insert k c m)
  unfolding insert
  IsKeyed-insert k c [] e h = (e, tt)
  IsKeyed-insert k c ((j, d) ∷ m) e h = elim (Bool-cases (str_eq j k)) [
    | inl t ↦ rw t (e, h.1)
    | inr t ↦ rw t (h.0, IsKeyed-insert k c m e h.1)
  ]

  -- A row found under a key has it for its identifier.
  pub IsKeyed-lookup :
      (k : String) (m : Table (Commitment F)) (c : Commitment F)
      → IsKeyed m
      → lookup k m ≡ some c
      → k ≡ string_of c.id
  unfolding lookup
  IsKeyed-lookup k [] c h e = absurd (cc e)
  IsKeyed-lookup k ((j, d) ∷ m) c h e = elim (Bool-cases (str_eq j k)) [
    | inl t ↦ ground (arith, eq_iff j k, h.0)
    | inr t ↦ IsKeyed-lookup k m c h.1 (rw t at e)
  ]

  abbrev pub has : String → Table (Commitment F) → Bool
  has k m = elim (lookup k m) [ none ↦ false | some c ↦ true ]

  has_more :
      (k j : String) (d : Commitment F) (m : Table (Commitment F))
      → has k m ≡ true
      → has k ((j, d) ∷ m) ≡ true
  unfolding lookup
  has_more k j d m h = ground arith

  has_first :
      (j : String) (d : Commitment F) (m : Table (Commitment F))
      → j ≡ string_of d.id
      → has (string_of d.id) ((j, d) ∷ m) ≡ true
  unfolding lookup
  has_first j d m e = ground (arith, eq_iff j (string_of d.id))

  pub IsKeyed-has :
      (m : Table (Commitment F))
      → IsKeyed m
      → All (λ (c : Commitment F). has (string_of c.id) m ≡ true) (values m)
  unfolding values
  IsKeyed-has [] h = tt
  IsKeyed-has ((j, d) ∷ m) h = (
    has_first j d m h.0,
    All-map (values m) (λ c. has_more (string_of c.id) j d m) (IsKeyed-has m h.1),
  )

  pub has-insert :
      (k j : String) (c : Commitment F) (m : Table (Commitment F))
      → has k m ≡ true
      → has k (insert j c m) ≡ true
  has-insert k j c m h = ground (arith, lookup-insert j k c m)

All-prefix :
    {A : Type 0} (P : A → Type 0) (limit : ℤ) (xs : List A) → All P xs → All P (limit_to limit xs)
unfolding limit_to
All-prefix P limit xs h = elim (Bool-cases (ltb_ℤ (pos 0) limit && ltb_ℤ limit (pos (length xs)))) [
  | inl e ↦ rw e (All-take P (pos_part limit) xs h)
  | inr e ↦ rw e h
]

module _ {F : Type 0} ⦃fl : Float64 F⦄ (string_of : Uuid → String)
    (rows : Arrange (Commitment F)) where
  -- What the scan returns is valid and can be found again.
  pub find_active-has :
      (s : State F) (limit : ℤ)
      → AllValid string_of s
      → IsKeyed string_of s.commitments
      → All
          (λ (c : Commitment F).
            (accepted (validate c) && has string_of (string_of c.id) s.commitments) ≡ true)
          (find_active rows s limit)
  unfolding find_active
  find_active-has s limit v h =
      let good = λ (c : Commitment F).
        accepted (validate c) && has string_of (string_of c.id) s.commitments in
      let row_good =
        All-map {Q = λ c. good c ≡ true} (values s.commitments) (λ c e. ground (arith, e.0, e.1))
          (All-both (λ (c : Commitment F). validate c ≡ none)
            (λ (c : Commitment F). has string_of (string_of c.id) s.commitments ≡ true)
            (values s.commitments) v (IsKeyed-has string_of s.commitments h)) in
      All-prefix (λ c. good c ≡ true) limit _
        (All-arrange good rows scans_before _ (
          All-keep (λ c. good c ≡ true) (λ (c : Commitment F). is_active c.status)
            (values s.commitments) row_good))
