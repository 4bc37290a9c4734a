-- ===== src/Governor/Release.antt =====
-- A request that was granted gives the gate back, whatever its operation does.
use footjob.Base.{ℕ, ◌+◌, ◌≡◌, true, some, ltb, Str, pos}
use footjob.Collector.State.{TelegramCollectorOperationState, Gate}
use footjob.Collector.Rows.{row_of}
use footjob.Collector.Exclusion.{Held}
use footjob.Collector.Finishing.{GivenBack}
use footjob.Governor.{Config, Operation, returns, floods, raises, Answer, value, reraised}

module _ (a token : ℕ) (config : Config) (category : Str) where
  -- The gate, held by the token since an instant.
  HeldSince : ℕ → Gate → Type 0
  HeldSince since g =
      (s : TelegramCollectorOperationState) × (row_of a g ≡ some s)
      × Held token (since + config.lease) s

-- What the caller sees when the gate is given back: the operation's own result.
abbrev pub answer_of : {T : Type 0} → Operation T → Answer T
answer_of (returns v) = value v
answer_of (floods s) = reraised
answer_of raises = reraised

-- A FloodWait names a positive number of seconds.
abbrev pub WellFormed : {T : Type 0} → Operation T → Type 0
WellFormed (floods (some (pos n))) = ltb 0 n ≡ true
WellFormed (floods _) = ⊥
WellFormed _ = Unit

module _ (a token : ℕ) {T : Type 0} where
  -- The gate is given back, and the answer is the one given.
  abbrev Answered : Answer T → Gate × Answer T → Type 0
  Answered answer x = GivenBack a x.0 × (x.1 ≡ answer)
