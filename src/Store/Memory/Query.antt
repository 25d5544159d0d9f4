-- ===== src/Store/Memory/Query.antt =====
-- What the queries of internal/store/memory share: the loop that keeps the matching rows, the cut at
-- the limit, and the tests of the filters.
use mathlib.Core.List.{append-nil}
use nous.Prelude.{
  ℕ, ◌≤◌, ◌≡◌, refl, Bool, true, false, ◌&&◌, ◌||◌, Option, none, some, String, List, [], ◌∷◌, ◌==◌,
  str_eq, if◌then◌else◌, length, take, drop, take-append-drop, length-take, ◌++◌, ◌⊎◌, arith,
  Bool-cases, inl, inr,
}
use nous.Domain.Errors.{Error, Result, ok, err}
use nous.Prelude.Int.{ℤ, pos, pos_part, ltb_ℤ}

cut_length {ℓ} :
    {A : Type ℓ} (limit : ℤ) (xs : List A)
    → (ltb_ℤ (pos 0) limit && ltb_ℤ limit (pos (length xs))) ≡ true
    → length (take (pos_part limit) xs) ≡ pos_part limit
cut_length limit xs e = ground (arith, length-take (pos_part limit) xs)

module _ {ℓ} {A : Type ℓ} where
  -- `if !p(row) { continue }; out = append(out, row)`
  unfoldable pub keep : (A → Bool) → List A → List A
  keep p [] = []
  keep p (x ∷ xs) = let rest = keep p xs in if p x then x ∷ rest else rest

  -- `if limit > 0 && len(out) > limit { out = out[:limit] }`
  unfoldable pub limit_to : ℤ → List A → List A
  limit_to limit out =
      if ltb_ℤ (pos 0) limit && ltb_ℤ limit (pos (length out))
      then take (pos_part limit) out
      else out

  -- `for _, s := range statuses { if status == s { match = true; break } }`
  unfoldable pub any_same : (A → A → Bool) → A → List A → Bool
  any_same same status [] = false
  any_same same status (s ∷ statuses) = same status s || any_same same status statuses

  -- `len(statuses) > 0` and no match is a mismatch.
  unfoldable pub status_matches : (A → A → Bool) → A → List A → Bool
  unfolding any_same
  status_matches same status [] = true
  status_matches same status (s ∷ statuses) = any_same same status (s ∷ statuses)

  -- The cut: what is returned and what is left out make up the list, and a positive limit is kept.
  pub limit_to_split :
      (limit : ℤ) (xs : List A)
      → (rest : List A) × (limit_to limit xs ++ rest ≡ xs)
        × ((ltb_ℤ (pos 0) limit ≡ false) ⊎ (length (limit_to limit xs) ≤ pos_part limit))
        × ((rest ≡ [])
            ⊎ ((ltb_ℤ (pos 0) limit ≡ true) × (length (limit_to limit xs) ≡ pos_part limit)))
  unfolding limit_to
  limit_to_split limit xs =
      elim (Bool-cases (ltb_ℤ (pos 0) limit && ltb_ℤ limit (pos (length xs)))) [
        | inl e ↦ rw e (
          drop (pos_part limit) xs,
          take-append-drop (pos_part limit) xs,
          inr (omega (arith, length-take {ℓ} (pos_part limit) xs)),
          inr (ground (arith, e), cut_length limit xs e),
        )
        | inr e ↦ rw e ([], append-nil xs, ground arith, inl refl)
      ]

-- `if want != nil { if have == nil || *have != *want { return false } }`
unfoldable pub id_matches : Option ℕ → Option ℕ → Bool
id_matches none have = true
id_matches (some want) none = false
id_matches (some want) (some have) = have == want

unfoldable pub name_matches : Option String → Option String → Bool
name_matches none have = true
name_matches (some want) none = false
name_matches (some want) (some have) = str_eq have want

-- The row, or the error that it is missing.
abbrev pub found : {A : Type 0} → Option A → Error → Result A
found none e = err e
found (some a) e = ok a

-- `err == nil`
abbrev pub accepted : Option Error → Bool
accepted none = true
accepted (some e) = false
