-- ===== src/Pipeline/Extract/Account.antt =====
-- What internal/pipeline/extract.go reports of a call.
use nous.Prelude.{ℕ, ◌+◌, ◌≡◌, length}
use nous.Prelude.Time.{Time}
use nous.Domain.Commitment.{Commitment}
use nous.Domain.Decision.{Decision}
use nous.Pipeline.Services.{Services}
use nous.Pipeline.Extract.{ExtractResult}

-- How many drafts have been dealt with.
abbrev dealt_with : ExtractResult → ℕ
dealt_with res = length res.saved + res.dropped

-- One step on: one more draft dealt with, and as many considered.
record OneOn (res res' : ExtractResult) : Type 0 where
  considered : res'.considered ≡ res.considered
  dealt : dealt_with res' ≡ dealt_with res + 1
