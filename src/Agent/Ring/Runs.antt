-- ===== src/Agent/Ring/Runs.antt =====
-- crates/ferrum-agent/src/ring.rs: the runs of one reader, whose passes come one after the other.
use ferrum.Prelude.{ℕ, ◌+◌, ◌≤◌, Option, some}
use ferrum.Agent.Ring.{RingLoop, new, tick}

-- The passes from the start of the reader on, whatever the counter of drops answers at each of
-- them, a read that fails included: its state and the time of the last pass.
pub data Passes (interval start : ℕ) : RingLoop → ℕ → Type 0 where
  begun : Passes interval start (new interval start) start
  passed :
      {ring : RingLoop} {now : ℕ}
      → Passes interval start ring now
      → (later records : ℕ) (dropped_total : Option ℕ) → now ≤ later
      → Passes interval start (tick ring later records dropped_total).0 later

-- The same where every read of the counter is answered, with the drops reported by then. `total`
-- is the counter of the kernel at each time.
pub data Runs (interval start : ℕ) (total : ℕ → ℕ) : RingLoop → ℕ → ℕ → Type 0 where
  begun : Runs interval start total (new interval start) start 0
  passed :
      {ring : RingLoop} {now reported : ℕ}
      → Runs interval start total ring now reported
      → (later records : ℕ) → now ≤ later
      → Runs interval start total
          (tick ring later records (some (total later))).0
          later
          (reported + (tick ring later records (some (total later))).1.drop_delta)
