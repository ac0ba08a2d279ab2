-- ===== src/Agent/Ring.antt =====
-- crates/ferrum-agent/src/ring.rs: when the reader of the kernel's ring sleeps, and when it reads
-- the drop counter. Instants and durations are nanoseconds.
pub mod Runs
pub mod Counted
pub mod Backoff
use ferrum.Prelude.{
  ℕ, ◌+◌, ◌-◌, ◌*◌, min, Bool, true, false, Option, none, some, leb, ◌==◌, if◌then◌else◌,
}

abbrev pub idle_min : ℕ
idle_min = 1000000

abbrev pub idle_max : ℕ
idle_max = 10000000

pub record RingTick : Type 0 where
  pub records : ℕ
  pub sleep : Option ℕ
  pub drop_delta : ℕ
  pub drop_check_failed : Bool

pub record RingLoop : Type 0 where
  pub drop_interval : ℕ
  pub next_drop_check : ℕ
  pub idle : ℕ
  pub seen_drops : ℕ

-- `RingLoop::new`.
unfoldable pub new : ℕ → ℕ → RingLoop
new drop_interval now = record {
  drop_interval = drop_interval;
  next_drop_check = now + drop_interval;
  idle = idle_min;
  seen_drops = 0;
}

-- The first half of `RingLoop::tick`: the backoff, of the number of records that `drain` gave.
unfoldable pub back_off : RingLoop → ℕ → RingLoop × RingTick
back_off ring records =
    if records == 0
    then (
      record ring { idle = min (ring.idle * 2) idle_max },
      record {
        records = records;
        sleep = some ring.idle;
        drop_delta = 0;
        drop_check_failed = false;
      },
    )
    else (
      record ring { idle = idle_min },
      record { records = records; sleep = none; drop_delta = 0; drop_check_failed = false },
    )

-- What `dropped_total` answers: `none` where the counter could not be read.
abbrev pub count_drops : Option ℕ → RingLoop × RingTick → RingLoop × RingTick
count_drops (some total) (ring, tick) =
    (record ring { seen_drops = total }, record tick { drop_delta = total - ring.seen_drops })
count_drops none (ring, tick) = (ring, record tick { drop_check_failed = true })

-- The second half: the poll, where it is due.
unfoldable pub poll_drops : ℕ → Option ℕ → RingLoop × RingTick → RingLoop × RingTick
poll_drops now dropped_total (ring, tick) =
    if leb ring.next_drop_check now
    then count_drops dropped_total
        (record ring { next_drop_check = now + ring.drop_interval }, tick)
    else (ring, tick)

unfoldable pub tick : RingLoop → ℕ → ℕ → Option ℕ → RingLoop × RingTick
unfolding back_off poll_drops
tick ring now drain dropped_total = poll_drops now dropped_total (back_off ring drain)
