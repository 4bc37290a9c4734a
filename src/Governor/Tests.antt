-- ===== src/Governor/Tests.antt =====
-- A request that is granted, runs into a FloodWait and gives the gate back.
use footjob.Base.{ℕ, none, some, List, [], ◌∷◌, pos}
use footjob.Governor.{Config, Operation, floods, Round}

abbrev config : Config
config = record {
  min_delay = 2;
  max_delay = 4;
  source_cooldown_min = 5;
  source_cooldown_max = 9;
  lease = 30;
}

-- The shortest delay, whatever the bounds are.
abbrev shortest : ℕ → ℕ → ℕ
shortest low high = low

abbrev rounds : List (Round ℕ)
rounds = record { others = []; now = 111; at = 110; ready = none } ∷ []

abbrev flooded : Operation ℕ
flooded = floods (some (pos 2))
