-- ===== src/Store/Table.antt =====
-- A Go `map[string]V` as the program uses it: lookups, writes, and iteration over the values. The
-- entries stand in the order of their first write; Go's own iteration order is unspecified, and no
-- theorem depends on it (see Arrange).
use nous.Prelude.{
  ◌≡◌, refl, true, Option, none, some, String, List, [], ◌∷◌, arith, str_eq, eq_iff, str_eq_refl,
  if◌then◌else◌, All, Bool-cases, inl, inr, subst,
}

abbrev pub Table {ℓ} : Type ℓ → Type ℓ
Table V = List (String × V)

module _ {ℓ} {V : Type ℓ} where
  unfoldable pub lookup : String → Table V → Option V
  lookup k [] = none
  lookup k ((j, v) ∷ m) = if str_eq j k then some v else lookup k m

  unfoldable pub insert : String → V → Table V → Table V
  insert k v [] = (k, v) ∷ []
  insert k v ((j, w) ∷ m) = if str_eq j k then (k, v) ∷ m else (j, w) ∷ insert k v m

  unfoldable pub values : Table V → List V
  values [] = []
  values ((j, v) ∷ m) = v ∷ values m

  -- A write is seen under its own key and nowhere else.
  pub lookup-insert :
      (key asked : String) (new : V) (table : Table V)
      → lookup asked (insert key new table)
        ≡ (if str_eq key asked then some new else lookup asked table)
  unfolding insert lookup
  lookup-insert key asked new [] = refl
  lookup-insert key asked new ((slot, old) ∷ below) = ground (
    arith,
    lookup-insert key asked new below,
    eq_iff slot asked,
    eq_iff slot key,
    eq_iff key asked,
  )

  pub lookup-insert_self : (k : String) (v : V) (m : Table V) → lookup k (insert k v m) ≡ some v
  lookup-insert_self k v m = rw lookup-insert (rw str_eq_refl)

module _ {ℓ κ} {V : Type ℓ} (P : V → Type κ) where
  -- A write of a value with the property keeps the property for all values.
  pub All-insert :
      (k : String) (v : V) (m : Table V) → P v → All P (values m) → All P (values (insert k v m))
  unfolding insert values
  All-insert k v [] p h = (p, tt)
  All-insert k v ((j, w) ∷ m) p h = elim (Bool-cases (str_eq j k)) [
    | inl e ↦ rw e (p, h.1)
    | inr e ↦ rw e (h.0, All-insert k v m p h.1)
  ]

  pub All-lookup : (k : String) (m : Table V) {v : V} → All P (values m) → lookup k m ≡ some v → P v
  unfolding lookup values
  All-lookup k [] h e = cc
  All-lookup k ((j, w) ∷ m) {v} h e = elim (Bool-cases (str_eq j k)) [
    | inl t ↦ subst P (same_value t) h.0
    | inr t ↦ All-lookup k m h.1 (rw t at e)
  ]
    where
      same_value : str_eq j k ≡ true → w ≡ v
      same_value t = ground arith
