-- ===== src/Deliveries/Scheduled.antt =====
-- What the scheduling of a run leaves: every match reported, every delivery stored, nothing lost.
use footjob.Base.{All, Bool, In, List, Result, Yields}
use footjob.Base.{err}
use footjob.Base.{length, ok, refl}
use footjob.Base.{◌+◌, ◌≡◌}
use footjob.Deliveries.{Store}
use footjob.Deliveries.Row.{Delivery}
use footjob.Deliveries.Steps.{committed, IsValid}
use footjob.Deliveries.Kept.{Kept}
use footjob.Deliveries.Scheduling.{Reading, DeliveryScheduleReport}

-- No row is lost.
abbrev pub Extends : List Delivery → List Delivery → Type 0
Extends before after = (d : Delivery) → In d before → In d after

-- The rows are still there, with the delivery that is returned.
abbrev Ensured : Store → Store × (Delivery × Bool) → Type 0
Ensured s r = Extends s.deliveries r.0.deliveries × In r.1.0 r.0.deliveries

committed-Extends :
    (s : Store) (r : Result (Store × (Delivery × Bool)))
    → Yields (Ensured s) r
    → Extends s.deliveries (committed s r).deliveries
committed-Extends s (ok a) y = (y.holds a refl).0
committed-Extends s (err e) y = λ d m. m

-- The report of a run, against the matches and the table that the run leaves.
pub record Scheduled (readings : List Reading) (before : List Delivery) (after : List Delivery)
    (r : DeliveryScheduleReport) : Type 0 where
  pub each_reported : length r.deliveries + length r.failures ≡ length readings
  pub stored : All (λ o. In o.0 after) r.deliveries
  pub extends : Extends before after
  pub valid : IsValid after
