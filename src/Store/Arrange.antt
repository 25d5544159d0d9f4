-- ===== src/Store/Arrange.antt =====
-- The order in which a query returns rows: Go's unspecified iteration order over a map followed by
-- `sort.Slice`. Neither is code of the repository: `arrange` stands for both, with what the
-- documentation of `sort.Slice` promises, a permutation that is in order if `less` is a strict weak order
-- on the rows.
pub mod Insertion
use mathlib.Core.List.{Perm, Permᴰ}
use mathlib.Core.Logic.{∥∥₁_elim}
use nous.Prelude.{
  ◌≡◌, refl, ap, ◌∙◌, Bool, true, false, List, [], ◌∷◌, arith, All, if◌then◌else◌, Bool-cases, inl,
  inr,
}

module _ {ℓ} {A : Type ℓ} (less : A → A → Bool) where
  -- No row is less than a row before it.
  abbrev pub InOrder : List A → Type 0
  InOrder [] = Unit
  InOrder (x ∷ xs) = All (λ y. less y x ≡ false) xs × InOrder xs

-- A strict weak order on the rows with property `P`.
pub record IsWeakOrder {ℓ} {A : Type ℓ} (P : A → Type 0) (less : A → A → Bool) : Type ℓ where
  pub asymmetric : (a b : A) → P a → P b → less a b ≡ true → less b a ≡ false
  pub transitive :
      (a b c : A) → P a → P b → P c → less b a ≡ false → less c b ≡ false → less c a ≡ false

pub record Arrange (A : Type 0) : Type 1 where
  pub arrange : (A → A → Bool) → List A → List A
  pub arrange-perm : (less : A → A → Bool) (xs : List A) → Perm (arrange less xs) xs
  pub arrange-InOrder :
      (P : A → Type 0) (less : A → A → Bool) (xs : List A)
      → IsWeakOrder P less
      → All P xs
      → InOrder less (arrange less xs)

module _ {A : Type 0} (p : A → Bool) where
  AllTrue-prop : (xs : List A) → IsProp (All (λ x. p x ≡ true) xs)
  AllTrue-prop [] = hlevel
  AllTrue-prop (x ∷ xs) = hlevel (AllTrue-prop xs)

  permuted : {xs ys : List A} → Permᴰ xs ys → All (λ x. p x ≡ true) ys → All (λ x. p x ≡ true) xs
  permuted Permᴰ.nil h = tt
  permuted (Permᴰ.cons e d) h = (ap p e ∙ h.0, permuted d h.1)
  permuted (Permᴰ.swap e f) h = (ap p e ∙ h.1.0, (ap p f ∙ h.0, h.1.1))
  permuted (Permᴰ.trans d e) h = permuted d (permuted e h)

  -- A test that all rows pass, all rows of the arrangement pass.
  pub All-arrange :
      (rows : Arrange A) (less : A → A → Bool) (xs : List A)
      → All (λ x. p x ≡ true) xs
      → All (λ x. p x ≡ true) (rows.arrange less xs)
  All-arrange rows less xs h =
      ∥∥₁_elim (rows.arrange-perm less xs) (AllTrue-prop (rows.arrange less xs)) (λ d. permuted d h)
