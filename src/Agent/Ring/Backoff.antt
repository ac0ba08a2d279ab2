-- ===== src/Agent/Ring/Backoff.antt =====
-- crates/ferrum-agent/src/ring.rs: how long the reader sleeps.
use ferrum.Prelude.{
  ℕ, ◌+◌, ◌*◌, min, ◌≤◌, ◌≡◌, refl, Bool, true, false, Option, none, some, ◌==◌, leb, if◌then◌else◌,
  arith,
}
use ferrum.Agent.Ring.{
  idle_min, idle_max, RingTick, RingLoop, new, back_off, count_drops, poll_drops, tick,
}
use ferrum.Agent.Ring.Runs.{Passes}

abbrev pub IsPaced : RingLoop → Type 0
IsPaced ring = (idle_min ≤ ring.idle) × (ring.idle ≤ idle_max)

-- The time slept is within the bounds, and no time is slept where there were records.
abbrev pub IsRest : ℕ → Option ℕ → Type 0
IsRest records none = (records == 0) ≡ false
IsRest records (some d) = (records ≡ 0) × (idle_min ≤ d) × (d ≤ idle_max)

abbrev Kept : ℕ → RingLoop × RingTick → Type 0
Kept records (ring, t) = IsPaced ring × (t.records ≡ records) × IsRest records t.sleep

back_off-Kept :
    (ring : RingLoop) (records : ℕ) → IsPaced ring → Kept records (back_off ring records)
unfolding back_off
back_off-Kept ring records h = pick (records == 0) refl
  where
    zero_of : (n : ℕ) → (n == 0) ≡ true → n ≡ 0
    zero_of n e = ground (arith, e)

    pick :
        (b : Bool)
        → (records == 0) ≡ b
        → Kept records (
            if b
            then (
              record ring { idle = min (ring.idle * 2) idle_max },
              record {
                records = records;
                sleep = some ring.idle;
                drop_delta = 0;
                drop_check_failed = false;
              },
            )
            else (
              record ring { idle = idle_min },
              record { records = records; sleep = none; drop_delta = 0; drop_check_failed = false },
            ))
    pick true e = ((omega (arith, h.0, h.1), omega arith), refl, (zero_of records e, h.0, h.1))
    pick false e = ((omega arith, omega arith), refl, e)

count_drops-Kept :
    (records : ℕ) (total : Option ℕ) (pass : RingLoop × RingTick)
    → Kept records pass
    → Kept records (count_drops total pass)
count_drops-Kept records none pass h = h
count_drops-Kept records (some total) pass h = h

poll_drops-Kept :
    (records now : ℕ) (total : Option ℕ) (pass : RingLoop × RingTick)
    → Kept records pass
    → Kept records (poll_drops now total pass)
unfolding poll_drops
poll_drops-Kept records now total (ring, t) h = pick (leb ring.next_drop_check now)
  where
    pick :
        (b : Bool)
        → Kept records (
            if b
            then count_drops total (record ring { next_drop_check = now + ring.drop_interval }, t)
            else (ring, t))
    pick true =
        count_drops-Kept records total
          (record ring { next_drop_check = now + ring.drop_interval }, t) h
    pick false = h

tick-Kept :
    (ring : RingLoop) (now records : ℕ) (total : Option ℕ)
    → IsPaced ring
    → Kept records (tick ring now records total)
unfolding tick
tick-Kept ring now records total h =
    poll_drops-Kept records now total (back_off ring records) (back_off-Kept ring records h)

Passes-IsPaced :
    {interval start : ℕ} {ring : RingLoop} {now : ℕ} → Passes interval start ring now → IsPaced ring
unfolding new
Passes-IsPaced Passes.begun = (omega arith, omega arith)
Passes-IsPaced (Passes.passed {ring = ring} run later records dropped_total le) =
    (tick-Kept ring later records dropped_total (Passes-IsPaced run)).0

-- In every run, whatever the counter of drops answers at each pass, a read that fails included, a
-- pass that found records does not sleep, and a pass that found none sleeps between the two bounds.
pub tick-IsRest :
    (interval start : ℕ) (ring : RingLoop) (now : ℕ)
    → Passes interval start ring now
    → (later records : ℕ) (dropped_total : Option ℕ)
    → IsRest records (tick ring later records dropped_total).1.sleep
tick-IsRest interval start ring now run later records dropped_total =
    (tick-Kept ring later records dropped_total (Passes-IsPaced run)).2
