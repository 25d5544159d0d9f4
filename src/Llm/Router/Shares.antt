-- ===== src/Llm/Router/Shares.antt =====
-- internal/llm/ab_prompt.go: each owner falls into the interval of exactly one variant.
use mathlib.Core.List.{Permᴰ}
use mathlib.Core.Logic.{∥∥₁_elim}
use native.Mathlib.Nat.{mod-lt}
use nous.Prelude.{
  ℕ, ◌+◌, ◌-◌, ◌%◌, ◌≤◌, ◌<◌, Bool, true, Option, none, some, String, List, [], ◌∷◌, ◌++◌, ◌==◌,
  ◌≡◌, refl, sym, ap, ◌∙◌, subst, arith, All, Bool-cases, inl, inr,
}
use nous.Prelude.Int.{ℤ, pos, pos_part, ltb_ℤ, sub_ℤ}
use nous.Domain.Errors.{Error, failure}
use nous.Store.Arrange.{Arrange, All-arrange}
use nous.Llm.Router.{
  PromptVariant, AbRouter, by_label, skipped, kept_variants, total_of, set_variants, bucket_in,
  pick_from, pick,
}

-- `0 < v.Weight`
abbrev counts : PromptVariant → Bool
counts v = ltb_ℤ (pos 0) v.weight

-- The weights in front of a variant add up to where its interval begins.
abbrev pub weight_sum : List PromptVariant → ℕ
weight_sum [] = 0
weight_sum (v ∷ vs) = pos_part v.weight + weight_sum vs

weight_sum_perm : {xs ys : List PromptVariant} → Permᴰ xs ys → weight_sum xs ≡ weight_sum ys
weight_sum_perm Permᴰ.nil = refl
weight_sum_perm (Permᴰ.cons e d) =
    omega (arith, weight_sum_perm d, ap (λ v. pos_part (PromptVariant.weight v)) e)
weight_sum_perm (Permᴰ.swap e f) = omega (
  arith,
  ap (λ v. pos_part (PromptVariant.weight v)) e,
  ap (λ v. pos_part (PromptVariant.weight v)) f,
)
weight_sum_perm (Permᴰ.trans d e) = weight_sum_perm d ∙ weight_sum_perm e

module _ (default_builder : String → String) where
  kept_counts :
      (vs : List PromptVariant) → All (λ v. counts v ≡ true) (kept_variants default_builder vs)
  unfolding kept_variants
  kept_counts [] = tt
  kept_counts (v ∷ vs) = elim (Bool-cases (skipped v)) [
    | inl e ↦ rw e (kept_counts vs)
    | inr e ↦ rw e (ground arith, kept_counts vs)
  ]

  weight_sum-kept_variants :
      (vs : List PromptVariant) → weight_sum (kept_variants default_builder vs) ≡ total_of vs
  unfolding kept_variants total_of
  weight_sum-kept_variants [] = refl
  weight_sum-kept_variants (v ∷ vs) = elim (Bool-cases (skipped v)) [
    | inl e ↦ rw e (weight_sum-kept_variants vs)
    | inr e ↦ rw e (omega (arith, weight_sum-kept_variants vs))
  ]

-- The variant `v` is the one whose interval holds the bucket.
pub record IsShare (vs : List PromptVariant) (bucket : ℕ) (v : PromptVariant) : Type 0 where
  pub front : List PromptVariant
  pub back : List PromptVariant
  pub splits : vs ≡ front ++ v ∷ back
  pub begins : weight_sum front ≤ bucket
  pub ends : bucket < weight_sum front + pos_part v.weight

IsShare-first :
    (vs : List PromptVariant) (v : PromptVariant) (b : ℕ)
    → b < pos_part v.weight
    → IsShare (v ∷ vs) b v
IsShare-first vs v b h = record {
  front = [];
  back = vs;
  splits = refl;
  begins = omega arith;
  ends = omega arith;
}

IsShare-later :
    (vs : List PromptVariant) (u v : PromptVariant) (b : ℕ)
    → pos_part u.weight ≤ b
    → IsShare vs (b - pos_part u.weight) v
    → IsShare (u ∷ vs) b v
IsShare-later vs u v b h s = record {
  front = u ∷ s.front;
  back = s.back;
  splits = ap (◌∷◌ u) s.splits;
  begins = omega (arith, s.begins);
  ends = omega (arith, s.ends);
}

bucket_step :
    (b : ℕ) (w : ℤ)
    → pos_part w ≤ b
    → ltb_ℤ (pos 0) w ≡ true
    → sub_ℤ (pos b) w ≡ pos (b - pos_part w)
bucket_step b w h k = ground arith

bucket_in-IsShare :
    (vs : List PromptVariant) (b : ℕ)
    → All (λ v. counts v ≡ true) vs
    → b < weight_sum vs
    → (v : PromptVariant) × (bucket_in (pos b) vs ≡ some v) × IsShare vs b v
unfolding bucket_in
bucket_in-IsShare [] b h k = absurd (omega arith)
bucket_in-IsShare (v ∷ vs) b h k = elim (Bool-cases (ltb_ℤ (pos b) v.weight)) [
  | inl e ↦ (v, rw e refl, IsShare-first vs v b (ground arith))
  | inr e ↦
      let r = bucket_in-IsShare vs (b - pos_part v.weight) h.1 (ground arith) in
      (
        r.0,
        rw e (rw (bucket_step b v.weight (ground arith) h.0) r.1),
        IsShare-later vs v r.0 b (ground arith) r.2,
      )
]

pick_from-IsShare :
    (hash : String → ℕ) (vs : List PromptVariant) (owner : String)
    → All (λ v. counts v ≡ true) vs
    → 0 < weight_sum vs
    → (v : PromptVariant) × (pick_from hash vs (weight_sum vs) owner ≡ some v)
      × IsShare vs (hash owner % weight_sum vs) v
unfolding pick_from
pick_from-IsShare hash [] owner h k = absurd (omega arith)
pick_from-IsShare hash (v ∷ []) owner h k =
    (v, refl, IsShare-first [] v _ (omega (arith, mod-lt (hash owner) k)))
pick_from-IsShare hash (v ∷ u ∷ vs) owner h k =
    let r =
      bucket_in-IsShare (v ∷ u ∷ vs) (hash owner % weight_sum (v ∷ u ∷ vs)) h
        (mod-lt (hash owner) k) in
    (r.0, rw r.1 refl, r.2)

set_variants_sets :
    (default_builder : String → String) (rows : Arrange PromptVariant) (vs : List PromptVariant)
    (r s : AbRouter)
    → set_variants default_builder rows vs r ≡ (s, none)
    → (s.variants ≡ rows.arrange by_label (kept_variants default_builder vs))
      × (s.total ≡ total_of vs)
      × (0 < total_of vs)
unfolding set_variants
set_variants_sets d rows [] r s h = cc
set_variants_sets d rows (v ∷ vs) r s h = elim (Bool-cases (total_of (v ∷ vs) == 0)) [
  | inl e ↦
      let z : Path (Option Error) (some (failure "ab: total weight is zero")) none =
        ap (λ p. p.1) (rw e at h) in
      cc
  | inr e ↦
      let z : record r {
        variants = rows.arrange by_label (kept_variants d (v ∷ vs));
        total = total_of (v ∷ vs);
      }
          ≡ s =
        ap (λ p. p.0) (rw e at h) in
      (sym (ap AbRouter.variants z), sym (ap AbRouter.total z), ground arith)
]

total_arranged :
    (default_builder : String → String) (rows : Arrange PromptVariant) (vs : List PromptVariant)
    → total_of vs ≡ weight_sum (rows.arrange by_label (kept_variants default_builder vs))
total_arranged d rows vs =
    sym (weight_sum-kept_variants d vs)
    ∙ sym (∥∥₁_elim (rows.arrange-perm by_label (kept_variants d vs)) (hlevel) weight_sum_perm)

-- Once the variants are set, every owner is routed to a variant, with no panic and never by the
-- fallback: it is the one of the variants in the order of their labels in whose interval the hash of the
-- owner, modulo the total weight, lies.
pub pick-IsShare :
    (hash : String → ℕ) (default_builder : String → String) (rows : Arrange PromptVariant)
    (vs : List PromptVariant) (r s : AbRouter)
    → set_variants default_builder rows vs r ≡ (s, none)
    → (owner : String)
    → (v : PromptVariant) × (pick hash s owner ≡ some v)
      × IsShare
          (rows.arrange by_label (kept_variants default_builder vs))
          (hash owner % total_of vs)
          v
unfolding set_variants pick
pick-IsShare hash default_builder rows vs r s h owner =
    let f = set_variants_sets default_builder rows vs r s h in
    let t = total_arranged default_builder rows vs in
    let vs' = rows.arrange by_label (kept_variants default_builder vs) in
    let c =
      All-arrange counts rows by_label (kept_variants default_builder vs)
        (kept_counts default_builder vs) in
    rw (f.0, f.1, t) (pick_from-IsShare hash vs' owner c (subst (λ (n : ℕ). 0 < n) t f.2))
