-- ===== src/Tests/Agent.antt =====
-- The agent's clocks and its reader at concrete inputs.
use ferrum.Prelude.{
  ℕ, ◌+◌, ◌-◌, ◌*◌, ◌≤◌, ◌≡◌, refl, true, false, none, some, length, replicate, leb, if◌then◌else◌,
  arith,
}
use ferrum.Agent.Ring.{new, tick}
use ferrum.Agent.Ring.Runs.{Passes, Runs}
use ferrum.Agent.Ring.Backoff.{IsRest, tick-IsRest}
use ferrum.Agent.Ring.Counted.{Grows, IsFresh, Runs-IsFresh}
use ferrum.Agent.Clock.{
  Chrono, Time, MonotonicFloor, landed, not_written, not_opened, write_observed, read_observed,
  ceiling, with_dir_at, now_from, persist,
}
use ferrum.Agent.Clock.Runs.{reads, Reach, here, next}
use ferrum.Agent.Clock.Floor.{AddsForward, CeilingWithin, now_from-rises, with_dir_at-bounded}
use ferrum.Agent.Clock.Restart.{ReadsBack, IsRestart, persist-with_dir_at}
use ferrum.Text.{Str, is_utf8, trim}

-- Seven drops at every moment that goes by.
abbrev dropping : ℕ → ℕ
dropping t = t + t

dropping-Grows : Grows dropping
dropping-Grows t u h = omega arith

-- Two passes that find records, the second of which is due to poll.
flood :
    Runs 100 1000 dropping
      (tick (tick (new 100 1000) 1050 64 (some 2100)).0 1120 64 (some 2240)).0
      1120
      (0
        + (tick (new 100 1000) 1050 64 (some 2100)).1.drop_delta
        + (tick (tick (new 100 1000) 1050 64 (some 2100)).0 1120 64 (some 2240)).1.drop_delta)
flood = Runs.passed (Runs.passed Runs.begun 1050 64 (omega arith)) 1120 64 (omega arith)

polled :
    ((tick (new 100 1000) 1050 64 (some 2100)).1.drop_delta ≡ 0)
    × ((tick (tick (new 100 1000) 1050 64 (some 2100)).0 1120 64 (some 2240)).1.drop_delta ≡ 2240)
unfolding tick new
polled = (refl, refl)

Runs-IsFresh_example : IsFresh 100 1000 dropping 1120 (
    0
    + (tick (new 100 1000) 1050 64 (some 2100)).1.drop_delta
    + (tick (tick (new 100 1000) 1050 64 (some 2100)).0 1120 64 (some 2240)).1.drop_delta)
Runs-IsFresh_example = Runs-IsFresh 100 1000 dropping _ 1120 _ dropping-Grows (omega arith) flood

-- Two passes whose reads of the counter fail, both due to poll.
unread : Passes 100 1000 (tick (tick (new 100 1000) 1150 0 none).0 1300 0 none).0 1300
unread =
    Passes.passed (Passes.passed Passes.begun 1150 0 none (omega arith)) 1300 0 none (omega arith)

tick-IsRest_example :
    IsRest 0 (tick (tick (tick (new 100 1000) 1150 0 none).0 1300 0 none).0 1400 0 (some 7)).1.sleep
tick-IsRest_example = tick-IsRest 100 1000 _ 1300 unread 1400 0 (some 7)

-- A moment is written as so many strokes.
abbrev tallied : Time → Str
tallied t = replicate t 0x7c

-- Moments as seconds, with room for all sums.
abbrev chrono : Chrono
chrono = record {
  add_seconds = λ t s. some (t + s);
  sub_days = λ t d. if leb (d * 86400) t then some (t - d * 86400) else none;
  add_days = λ t d. t + d * 86400;
  seconds_since = λ a b. a - b;
  to_rfc3339 = tallied;
  parse_from_rfc3339 = λ text. some (length text);
}

chrono-AddsForward : AddsForward chrono
chrono-AddsForward t s r e = go t s r e
  where
    go : (t s r : ℕ) → some (t + s) ≡ some r → t ≤ r
    go t s r e = ground (arith, e)

abbrev started : MonotonicFloor
started = record {
  dir = true;
  state = record { floor = 1000; persisted = 1000 };
  rollbacks = 0;
  persist_failed = 0;
  persist_failing = false;
  observed = some (tallied 1000);
  tmp = none;
}

abbrev AnyReading : Time → Type 0
AnyReading t = t ≤ 10000

set_back :
    Reach chrono AnyReading
      (now_from chrono landed 2000 started).0
      (now_from chrono not_opened 500 (now_from chrono landed 2000 started).0).0
set_back = next here (reads (now_from chrono landed 2000 started).0 not_opened 500 (omega arith))

now_from-rises_example :
    (now_from chrono landed 2000 started).1
    ≤ (now_from chrono landed 600
        (now_from chrono not_opened 500 (now_from chrono landed 2000 started).0).0).1
now_from-rises_example =
    now_from-rises chrono AnyReading started
      (now_from chrono not_opened 500 (now_from chrono landed 2000 started).0).0 landed landed 2000
      600 set_back

-- A reading below the floor is answered by the floor, and counted.
held_back :
    ((now_from chrono landed 600 (now_from chrono landed 2000 started).0).1 ≡ 2000)
    × ((now_from chrono landed 600 (now_from chrono landed 2000 started).0).0.rollbacks ≡ 1)
unfolding now_from
held_back = (refl, refl)

ceiling_2300 : ceiling chrono 2000 ≤ 2300
unfolding ceiling
ceiling_2300 = omega arith

from_file :
    Reach chrono
      (CeilingWithin chrono 2300)
      (with_dir_at chrono (some (tallied 9000)) 2000)
      (now_from chrono landed 2000 (with_dir_at chrono (some (tallied 9000)) 2000)).0
from_file =
    next here (reads (with_dir_at chrono (some (tallied 9000)) 2000) landed 2000 ceiling_2300)

with_dir_at-bounded_example :
    (now_from chrono landed 2000 (with_dir_at chrono (some (tallied 9000)) 2000)).0.state.floor
    ≤ 2300
with_dir_at-bounded_example =
    with_dir_at-bounded chrono (some (tallied 9000)) 2000 2300
      (now_from chrono landed 2000 (with_dir_at chrono (some (tallied 9000)) 2000)).0
      chrono-AddsForward ceiling_2300 from_file

below_four : 4 ≤ ceiling chrono 900
unfolding ceiling
below_four = omega arith

-- A clock that stops at the moment 4.
abbrev stopping : MonotonicFloor
stopping = record started {
  state = record { floor = 4; persisted = 2 };
  observed = some (tallied 2);
}

stopping-ReadsBack : ReadsBack chrono 4
unfolding is_utf8 trim
stopping-ReadsBack = record { utf8 = refl; bare = refl; parsed = refl }

persist-with_dir_at_example :
    IsRestart stopping
      (persist chrono landed stopping)
      (with_dir_at chrono (persist chrono landed stopping).observed 900)
      landed
persist-with_dir_at_example =
    persist-with_dir_at chrono stopping landed 900 refl (λ e. omega arith) stopping-ReadsBack
      below_four

-- A write that breaks off leaves the file as it was, and a restart has the floor of that.
torn :
    (with_dir_at chrono
      (persist chrono (not_written (tallied 1)) stopping).observed
      900).state.floor
    ≡ 2
unfolding with_dir_at persist write_observed read_observed is_utf8 trim ceiling
torn = refl
