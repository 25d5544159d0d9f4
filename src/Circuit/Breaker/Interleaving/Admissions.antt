-- ===== src/Circuit/Breaker/Interleaving/Admissions.antt =====
-- internal/circuit/breaker.go with several calls at once: how many calls get in while the breaker is half open, counted along
-- the steps themselves.
use nous.Prelude.{ℕ, ◌+◌, ◌≡◌, refl, sym, ◌∙◌, ap, Bool, true, false, some, if◌then◌else◌, arith}
use nous.Prelude.Int.{pos, neg_part, leb_ℤ}
use nous.Prelude.Time.{Time}
use nous.Circuit.Breaker.{
  State, closed, half_open, Config, Breaker, new_breaker, wake, admit, settle,
}
use nous.Circuit.Breaker.Interleaving.{
  System, initial, Step, turn_away, arrive_open, arrive, awaken, enter, bounce, return, Reach, here,
  next, Reach-Inv,
}

abbrev is_half : State → Bool
is_half half_open = true
is_half _ = false

-- The calls that a step lets in.
abbrev entered : {s t : System} → Step s t → ℕ
entered (enter n b p a e) = 1
entered _ = 0

-- The calls that got in since the breaker last became half open; 0 while it is not.
abbrev pub admissions : {s t : System} → Reach s t → ℕ
admissions here = 0
admissions (next {t} {u} r st) =
    let before = admissions r in
    if is_half u.breaker.state
    then (if is_half t.breaker.state then before else 0) + entered st
    else 0

-- The field agrees with a count of the calls.
abbrev Agrees : Breaker → ℕ → Type 0
Agrees b n = b.state ≡ half_open → n ≡ b.half_open_requests

abbrev onward : Breaker → Breaker → ℕ → ℕ → ℕ
onward b b' n k = if is_half b'.state then (if is_half b.state then n else 0) + k else 0

same-Agrees : (b : Breaker) (n : ℕ) → Agrees b n → Agrees b (onward b b n 0)
same-Agrees b n h s = ground (arith, h s)

wake-Agrees : (b : Breaker) (n : ℕ) → Agrees b n → Agrees (wake b) (onward b (wake b) n 0)
unfolding wake
wake-Agrees b n h s = ground arith

admit-Agrees :
    (b b' : Breaker) (n : ℕ) → admit b ≡ some b' → Agrees b n → Agrees b' (onward b b' n 1)
unfolding admit
admit-Agrees b b' n e h s = ground arith

settle-Agrees :
    (b : Breaker) (failed : Bool) (now : Time) (n : ℕ)
    → Agrees b n
    → Agrees (settle b failed now) (onward b (settle b failed now) n 0)
unfolding settle
settle-Agrees b failed now n h s = ground arith

-- A breaker's settings stay as they are.
wake_config : (b : Breaker) → (wake b).config ≡ b.config
unfolding wake
wake_config b = ground arith

admit_config : (b b' : Breaker) → admit b ≡ some b' → b'.config ≡ b.config
unfolding admit
admit_config b b' e = ground arith

settle_config : (b : Breaker) (failed : Bool) (now : Time) → (settle b failed now).config ≡ b.config
unfolding settle
settle_config b failed now = ground arith

Step-config : {s t : System} → Step s t → t.breaker.config ≡ s.breaker.config
Step-config (turn_away now l e) = rw e refl
Step-config (arrive_open now l e) = rw e refl
Step-config (arrive now l e) = rw e refl
Step-config {s} (awaken n p e) = rw e (wake_config s.breaker)
Step-config {s} (enter n b p a e) = rw e (admit_config s.breaker b a)
Step-config (bounce n p a e) = rw e refl
Step-config {s} (return n failed now p e) = rw e (settle_config s.breaker failed now)

Step-Agrees :
    {s t : System} (st : Step s t) (n : ℕ)
    → Agrees s.breaker n
    → Agrees t.breaker (onward s.breaker t.breaker n (entered st))
Step-Agrees {s} (turn_away now l e) n h = rw e (same-Agrees s.breaker n h)
Step-Agrees {s} (arrive_open now l e) n h = rw e (same-Agrees s.breaker n h)
Step-Agrees {s} (arrive now l e) n h = rw e (same-Agrees s.breaker n h)
Step-Agrees {s} (awaken m p e) n h = rw e (wake-Agrees s.breaker n h)
Step-Agrees {s} (enter m b p a e) n h = rw e (admit-Agrees s.breaker b n a h)
Step-Agrees {s} (bounce m p a e) n h = rw e (same-Agrees s.breaker n h)
Step-Agrees {s} (return m failed now p e) n h = rw e (settle-Agrees s.breaker failed now n h)

new_closed : (c : Config) → (new_breaker c).state ≡ closed
unfolding new_breaker
new_closed c = refl

new_limit : (c : Config) → (new_breaker c).config.max_requests ≡ c.max_requests
unfolding new_breaker
new_limit c = refl

module _ (c : Config) where
  reached_config : {t : System} → Reach (initial c) t → t.breaker.config ≡ (new_breaker c).config
  reached_config here = refl
  reached_config (next r st) = Step-config st ∙ reached_config r

  reached-Agrees : {t : System} (r : Reach (initial c) t) → Agrees t.breaker (admissions r)
  reached-Agrees here = λ h. absurd (let e : closed ≡ half_open = sym (new_closed c) ∙ h in cc e)
  reached-Agrees (next r st) = Step-Agrees st (admissions r) (reached-Agrees r)

-- With limits that are not negative, and however calls interleave, a closed breaker is below its limit of failures, and
-- of the calls made since a half-open breaker became half open at most `MaxRequests` have been let in, counted one by one.
pub admissions_bounded :
    (c : Config) (t : System)
    → neg_part c.max_failures ≡ 0
    → neg_part c.max_requests ≡ 0
    → (r : Reach (initial c) t)
    → (t.breaker.state ≡ closed
        → leb_ℤ t.breaker.config.max_failures (pos t.breaker.failures) ≡ false)
      × (t.breaker.state ≡ half_open → leb_ℤ (pos (admissions r)) c.max_requests ≡ true)
admissions_bounded c t h k r =
    let i = Reach-Inv c t h k r in
    let m : t.breaker.config.max_requests ≡ c.max_requests =
      ap (λ (d : Config). d.max_requests) (reached_config c r) ∙ new_limit c in
    (i.below, λ s. rw (reached-Agrees c r s) (rw m at i.bounded s))
