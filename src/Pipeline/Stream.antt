-- ===== src/Pipeline/Stream.antt =====
-- crates/stmp2log/src/pipeline.rs: what mails that come one after the other do to the store.
use stmp2log.Prelude.{ℕ, ◌+◌, ◌<◌, min, ◌≡◌, List, [], ◌∷◌, ◌++◌, length, ◌⊎◌}
use stmp2log.Smtp.{Delivered}
use stmp2log.Store.Record.{MetaRec}
use stmp2log.Store.Log.{Inner}
use stmp2log.Store.Log.Retain.{IsSuffix}
use stmp2log.Pipeline.{NotifyJob}
use stmp2log.Pipeline.Intake
use stmp2log.Pipeline.Intake.{Intake, Taken, Stored}
use stmp2log.Pipeline.Added.{Passes, IsMade}

-- What the mails come to from the number `n` on: each that is let in makes one job and one record, in the order
-- of the mails and with the next number, and no other makes one.
pub data Makes : ℕ → List (Intake × Delivered) → List NotifyJob → List MetaRec → Type 0 where
  ended : (n : ℕ) → Makes n [] [] []
  kept_out :
      (n : ℕ) (w : Intake) (d : Delivered) (ds : List (Intake × Delivered)) (jobs : List NotifyJob)
      (ms : List MetaRec)
      → ¬ Passes w d
      → Makes n ds jobs ms
      → Makes n ((w, d) ∷ ds) jobs ms
  came_in :
      (n : ℕ) (w : Intake) (d : Delivered) (ds : List (Intake × Delivered)) (jobs : List NotifyJob)
      (ms : List MetaRec) (job : NotifyJob) (m : MetaRec)
      → Passes w d
      → IsMade w d n job m
      → Makes (n + 1) ds jobs ms
      → Makes n ((w, d) ∷ ds) (job ∷ jobs) (m ∷ ms)

-- The store `j` after the mails and the jobs that they leave: the index has the newest of what was there and
-- of the new records, as many of them as the limit allows, unless there is a limit in days.
pub record IsFed (ds : List (Intake × Delivered)) (i j : Inner) (jobs : List NotifyJob)
    : Type 0 where
  pub news : List MetaRec
  pub makes : Makes i.next_id ds jobs news
  pub newest : IsSuffix j.index (i.index ++ news)
  pub next_id : j.next_id ≡ i.next_id + length jobs
  pub retention : j.retention ≡ i.retention
  pub full :
      (0 < i.retention.max_days)
      ⊎ (length j.index ≡ min i.retention.max_entries (length i.index + length jobs))
