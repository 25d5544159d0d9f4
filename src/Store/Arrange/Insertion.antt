-- ===== src/Store/Arrange/Insertion.antt =====
-- Insertion sort, which shows that what `Arrange` assumes of `sort.Slice` can be met, for the worked
-- examples.
use mathlib.Core.List.{Perm}
use mathlib.Core.List.Perm
use nous.Prelude.{◌≡◌, Bool, false, List, [], ◌∷◌, All, if◌then◌else◌, Bool-cases, inl, inr}
use nous.Store.Arrange.{InOrder, IsWeakOrder, Arrange}

module _ {A : Type 0} (less : A → A → Bool) where
  unfoldable pub insert_by : A → List A → List A
  insert_by x [] = x ∷ []
  insert_by x (y ∷ ys) = if less y x then y ∷ insert_by x ys else x ∷ y ∷ ys

  unfoldable pub sort_by : List A → List A
  sort_by [] = []
  sort_by (x ∷ xs) = insert_by x (sort_by xs)

  perm-insert_by : (x : A) (ys : List A) → Perm (insert_by x ys) (x ∷ ys)
  unfolding insert_by
  perm-insert_by x [] = Perm.refl (x ∷ [])
  perm-insert_by x (y ∷ ys) = elim (Bool-cases (less y x)) [
    | inl e ↦ rw e (Perm.trans (Perm.cons y (perm-insert_by x ys)) (Perm.swap x y ys))
    | inr e ↦ rw e (Perm.refl (x ∷ y ∷ ys))
  ]

  pub perm-sort_by : (xs : List A) → Perm (sort_by xs) xs
  unfolding sort_by
  perm-sort_by [] = Perm.refl []
  perm-sort_by (x ∷ xs) = Perm.trans (perm-insert_by x (sort_by xs)) (Perm.cons x (perm-sort_by xs))

  All-insert_by : (Q : A → Type 0) (x : A) (ys : List A) → Q x → All Q ys → All Q (insert_by x ys)
  unfolding insert_by
  All-insert_by Q x [] q h = (q, tt)
  All-insert_by Q x (y ∷ ys) q h = elim (Bool-cases (less y x)) [
    | inl e ↦ rw e (h.0, All-insert_by Q x ys q h.1)
    | inr e ↦ rw e (q, h)
  ]

  All-sort_by : (Q : A → Type 0) (xs : List A) → All Q xs → All Q (sort_by xs)
  unfolding sort_by
  All-sort_by Q [] h = tt
  All-sort_by Q (x ∷ xs) h = All-insert_by Q x (sort_by xs) h.0 (All-sort_by Q xs h.1)

  module _ (P : A → Type 0) (weak : IsWeakOrder P less) where
    not_less_later :
        (x y : A) (zs : List A)
        → P x
        → P y
        → All P zs
        → less y x ≡ false
        → All (λ z. less z y ≡ false) zs
        → All (λ z. less z x ≡ false) zs
    not_less_later x y [] px py h e k = tt
    not_less_later x y (z ∷ zs) px py h e k =
        (weak.transitive x y z px py h.0 e k.0, not_less_later x y zs px py h.1 e k.1)

    InOrder-insert_by :
        (x : A) (ys : List A) → P x → All P ys → InOrder less ys → InOrder less (insert_by x ys)
    unfolding insert_by
    InOrder-insert_by x [] px h o = (tt, tt)
    InOrder-insert_by x (y ∷ ys) px h o = elim (Bool-cases (less y x)) [
      | inl e ↦ rw e (
        All-insert_by (λ z. less z y ≡ false) x ys (weak.asymmetric y x h.0 px e) o.0,
        InOrder-insert_by x ys px h.1 o.1,
      )
      | inr e ↦ rw e ((e, not_less_later x y ys px h.0 h.1 e o.0), o)
    ]

    pub InOrder-sort_by : (xs : List A) → All P xs → InOrder less (sort_by xs)
    unfolding sort_by
    InOrder-sort_by [] h = tt
    InOrder-sort_by (x ∷ xs) h =
        InOrder-insert_by x (sort_by xs) h.0 (All-sort_by P xs h.1) (InOrder-sort_by xs h.1)

abbrev pub insertion : {A : Type 0} → Arrange A
insertion = record {
  arrange = sort_by;
  arrange-perm = perm-sort_by;
  arrange-InOrder = λ P less xs weak h. InOrder-sort_by less P weak xs h;
}
