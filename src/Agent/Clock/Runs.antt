-- ===== src/Agent/Clock/Runs.antt =====
-- crates/ferrum-agent/src/clock.rs: what may happen to a clock, in any order.
use ferrum.Prelude.{List}
use ferrum.Policy.Exceptions.{PolicyExceptionSpec}
use ferrum.Agent.Clock.{
  Time, Chrono, Write, MonotonicFloor, persist, anchor_from_exceptions_at, now_from,
}

-- One call on the clock. The readings of the wall clock are those that `Reading` allows.
pub data Step (chrono : Chrono) (Reading : Time → Type 0)
    : MonotonicFloor → MonotonicFloor → Type 0 where
  reads :
      (clock : MonotonicFloor) (outcome : Write) (wall : Time)
      → Reading wall
      → Step chrono Reading clock (now_from chrono outcome wall clock).0
  anchors :
      (clock : MonotonicFloor) (specs : List (PolicyExceptionSpec Time)) (wall now : Time)
      → Reading wall
      → Step chrono Reading clock (anchor_from_exceptions_at chrono specs wall now clock)
  persists :
      (clock : MonotonicFloor) (outcome : Write)
      → Step chrono Reading clock (persist chrono outcome clock)

pub data Reach (chrono : Chrono) (Reading : Time → Type 0) (start : MonotonicFloor)
    : MonotonicFloor → Type 0 where
  here : Reach chrono Reading start start
  next :
      {clock after : MonotonicFloor}
      → Reach chrono Reading start clock
      → Step chrono Reading clock after
      → Reach chrono Reading start after
