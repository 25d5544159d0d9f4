-- ===== src/Domain/Lifecycle.antt =====
-- What the status types of internal/domain have in common: a table of legal edges, and an update that
-- is refused off the table. The aggregates' own methods are in their modules; here is what any
-- sequence of calls of such a method does to a status.
use nous.Prelude.{◌≡◌, refl, ◌⊎◌, inl, inr, Option, List, [], ◌∷◌, subst}
use nous.Prelude.Time.{Time}
use nous.Domain.Errors.{Error}

-- The statuses that a path of edges leads to.
pub data Reach {S : Type 0} (E : S → S → Type 0) : S → S → Type 0 where
  here : {s : S} → Reach E s s
  next : {s t u : S} → E s t → Reach E t u → Reach E s u

-- A method that takes a target and the time, changes its receiver or not, and may return an error.
abbrev pub Method : Type 0 → Type 0 → Type 0
Method C S = C → S → Time → C × Option Error

module _ {C S : Type 0} where
  -- Calls one after another; the caller goes on whether or not a call is refused.
  unfoldable pub calls : Method C S → C → List (S × Time) → C
  calls m c [] = c
  calls m c ((t, now) ∷ ops) = calls m (m c t now).0 ops

  -- A method that moves the status along the edges of `E` or leaves it.
  pub record Follows (status : C → S) (m : Method C S) (E : S → S → Type 0) : Type 0 where
    pub at :
        (c : C) (t : S) (now : Time)
        → (status (m c t now).0 ≡ status c) ⊎ E (status c) (status (m c t now).0)

  pub calls-Reach :
      {status : C → S} {m : Method C S} {E : S → S → Type 0}
      → Follows status m E
      → (c : C) (ops : List (S × Time)) → Reach E (status c) (status (calls m c ops))
  unfolding calls
  calls-Reach f c [] = here
  calls-Reach {status} {m} {E} f c ((t, now) ∷ ops) = elim (f.at c t now) [
    | inl e ↦
        subst (λ s. Reach E s (status (calls m (m c t now).0 ops))) e
          (calls-Reach f (m c t now).0 ops)
    | inr e ↦ next e (calls-Reach f (m c t now).0 ops)
  ]

-- A status that no edge leaves is kept.
pub Reach-stuck :
    {S : Type 0} {E : S → S → Type 0} {s t : S} → ((u : S) → ¬ E s u) → Reach E s t → t ≡ s
Reach-stuck h here = refl
Reach-stuck h (next {t = u} e r) = absurd (h u e)

-- What every edge keeps, a path keeps.
pub Reach-keeps :
    {S : Type 0} {E : S → S → Type 0} (P : S → Type 0) {s t : S}
    → ((u v : S) → E u v → P u → P v)
    → Reach E s t
    → P s
    → P t
Reach-keeps P keep here p = p
Reach-keeps P keep (next {s = u} {t = v} e r) p = Reach-keeps P keep r (keep u v e p)
