-- ===== src/Agent/Clock/Floor.antt =====
-- crates/ferrum-agent/src/clock.rs: the floor only rises, and no further than the wall clock allows.
use ferrum.Prelude.{
  ℕ, ◌+◌, max, min, ◌≤◌, ◌≡◌, refl, ap, ◌∙◌, Bool, true, false, not, Option, none, some, List, ltb,
  leb, ◌==◌, if◌then◌else◌, arith,
}
use ferrum.Text.{Str}
use ferrum.Policy.Exceptions.{PolicyExceptionSpec}
use ferrum.Agent.Clock.{
  Time, min_utc, persist_step_secs, Chrono, MonotonicFloor, Write, not_opened, not_written,
  not_renamed, landed, write_observed, read_observed, noted, unwrap_or, filtered, write_floor,
  persist, ceiling, with_dir_at, anchor_from, anchor_from_exceptions_at, now_from,
}
use ferrum.Agent.Clock.Runs.{Step, reads, anchors, persists, Reach, here, next}

-- Adding seconds never leads back.
abbrev pub AddsForward : Chrono → Type 0
AddsForward chrono = (t s r : ℕ) → chrono.add_seconds t s ≡ some r → t ≤ r

write_floor-state :
    (chrono : Chrono) (outcome : Write) (when : Time) (clock : MonotonicFloor)
    → (write_floor chrono outcome when clock).state ≡ clock.state
unfolding write_floor write_observed
write_floor-state chrono outcome when clock = pick (not clock.dir) outcome
  where
    pick :
        (a : Bool) (outcome : Write)
        → (if a then clock else noted chrono (write_observed chrono outcome when clock)).state
          ≡ clock.state
    pick true outcome = refl
    pick false not_opened = refl
    pick false (not_written left) = refl
    pick false not_renamed = refl
    pick false landed = refl

-- The later of the wall clock and the floor is answered, and is the floor from then on.
abbrev pub IsAnswer : MonotonicFloor → Time → MonotonicFloor × Time → Type 0
IsAnswer clock wall answer =
    (answer.1 ≡ max wall clock.state.floor) × (answer.0.state.floor ≡ max wall clock.state.floor)

pub now_from-IsAnswer :
    (chrono : Chrono) (outcome : Write) (wall : Time) (clock : MonotonicFloor)
    → IsAnswer clock wall (now_from chrono outcome wall clock)
unfolding now_from
now_from-IsAnswer chrono outcome wall clock =
    pick (ltb wall clock.state.floor)
      (leb persist_step_secs (chrono.seconds_since wall clock.state.persisted)) refl
  where
    back : (w f : ℕ) → ltb w f ≡ true → f ≡ max w f
    back w f e = ground (arith, e)

    forth : (w f : ℕ) → ltb w f ≡ false → w ≡ max w f
    forth w f e = ground (arith, e)

    pick :
        (a b : Bool)
        → ltb wall clock.state.floor ≡ a
        → IsAnswer clock wall (
            if a
            then (record clock { rollbacks = clock.rollbacks + 1 }, clock.state.floor)
            else if b
            then (
              write_floor chrono outcome wall
                  (record clock { state = record { floor = wall; persisted = wall } }),
              wall,
            )
            else (
              record clock { state = record { floor = wall; persisted = clock.state.persisted } },
              wall,
            ))
    pick true b e = (back wall clock.state.floor e, back wall clock.state.floor e)
    pick false true e = (
      forth wall clock.state.floor e,
      ap (λ s. s.floor)
            (write_floor-state chrono outcome wall
              (record clock { state = record { floor = wall; persisted = wall } }))
          ∙ forth wall clock.state.floor e,
    )
    pick false false e = (forth wall clock.state.floor e, forth wall clock.state.floor e)

persist-floor :
    (chrono : Chrono) (outcome : Write) (clock : MonotonicFloor)
    → (persist chrono outcome clock).state.floor ≡ clock.state.floor
unfolding persist
persist-floor chrono outcome clock = pick (clock.state.floor == min_utc)
  where
    flushed : MonotonicFloor
    flushed = record clock {
      state = record { floor = clock.state.floor; persisted = clock.state.floor };
    }

    pick :
        (a : Bool)
        → (if◌then◌else◌ {A = MonotonicFloor} a clock
            (write_floor chrono outcome clock.state.floor flushed)).state.floor
          ≡ clock.state.floor
    pick true = refl
    pick false = ap (λ s. s.floor) (write_floor-state chrono outcome clock.state.floor flushed)

-- An anchor raises the floor, and to no more than the ceiling of the wall clock.
abbrev Anchored : MonotonicFloor → Time → MonotonicFloor → Type 0
Anchored clock top after =
    (clock.state.floor ≤ after.state.floor) × (after.state.floor ≤ max clock.state.floor top)

anchor_from_exceptions_at-Anchored :
    (chrono : Chrono) (specs : List (PolicyExceptionSpec Time)) (wall now : Time)
    (clock : MonotonicFloor)
    → Anchored clock (ceiling chrono wall) (anchor_from_exceptions_at chrono specs wall now clock)
unfolding anchor_from_exceptions_at
anchor_from_exceptions_at-Anchored chrono specs wall now clock =
    pick (anchor_from chrono now specs) (ceiling chrono wall)
  where
    raised : Time → MonotonicFloor
    raised t = record clock { state = record { floor = t; persisted = clock.state.persisted } }

    above :
        (a top : Time) (b : Bool)
        → ltb clock.state.floor (min a top) ≡ b
        → Anchored clock top (if b then raised (min a top) else clock)
    above a top true e = (ground (arith, e), omega arith)
    above a top false e = (omega arith, omega arith)

    pick :
        (anchor : Option Time) (top : Time)
        → Anchored clock top (elim anchor [
          | none ↦ clock
          | some a ↦ if ltb clock.state.floor (min a top) then raised (min a top) else clock
        ])
    pick none top = (omega arith, omega arith)
    pick (some a) top = above a top (ltb clock.state.floor (min a top)) refl

Step-rises :
    {chrono : Chrono} {Reading : Time → Type 0} {clock after : MonotonicFloor}
    → Step chrono Reading clock after
    → clock.state.floor ≤ after.state.floor
Step-rises {chrono = chrono} (reads clock outcome wall r) =
    omega (arith, (now_from-IsAnswer chrono outcome wall clock).1)
Step-rises {chrono = chrono} (anchors clock specs wall now r) =
    (anchor_from_exceptions_at-Anchored chrono specs wall now clock).0
Step-rises {chrono = chrono} (persists clock outcome) =
    omega (arith, persist-floor chrono outcome clock)

Reach-rises :
    {chrono : Chrono} {Reading : Time → Type 0} {clock after : MonotonicFloor}
    → Reach chrono Reading clock after
    → clock.state.floor ≤ after.state.floor
Reach-rises here = omega arith
Reach-rises (next r s) = omega (arith, Reach-rises r, Step-rises s)

-- Whatever the wall clock reads, whatever anchors it and whichever writes fail, no moment that the
-- clock answers is earlier than one that it answered before.
pub now_from-rises :
    (chrono : Chrono) (Reading : Time → Type 0) (clock after : MonotonicFloor)
    (outcome outcome' : Write) (wall wall' : Time)
    → Reach chrono Reading (now_from chrono outcome wall clock).0 after
    → (now_from chrono outcome wall clock).1 ≤ (now_from chrono outcome' wall' after).1
now_from-rises chrono Reading clock after outcome outcome' wall wall' run = omega (
  arith,
  Reach-rises run,
  (now_from-IsAnswer chrono outcome wall clock).0,
  (now_from-IsAnswer chrono outcome wall clock).1,
  (now_from-IsAnswer chrono outcome' wall' after).0,
)

ceiling-≥ : (chrono : Chrono) (wall : Time) → AddsForward chrono → wall ≤ ceiling chrono wall
unfolding ceiling
ceiling-≥ chrono wall h = pick (chrono.add_seconds wall 300) refl
  where
    pick : (o : Option Time) → chrono.add_seconds wall 300 ≡ o → wall ≤ unwrap_or o wall
    pick none e = omega arith
    pick (some r) e = h wall 300 r e

abbrev pub CeilingWithin : Chrono → Time → Time → Type 0
CeilingWithin chrono bound wall = ceiling chrono wall ≤ bound

Step-bounded :
    {chrono : Chrono} {bound : Time} {clock after : MonotonicFloor}
    → AddsForward chrono
    → Step chrono (CeilingWithin chrono bound) clock after
    → clock.state.floor ≤ bound
    → after.state.floor ≤ bound
Step-bounded {chrono = chrono} h (reads clock outcome wall r) low =
    omega (arith, low, r, ceiling-≥ chrono wall h, (now_from-IsAnswer chrono outcome wall clock).1)
Step-bounded {chrono = chrono} h (anchors clock specs wall now r) low =
    omega (arith, low, r, (anchor_from_exceptions_at-Anchored chrono specs wall now clock).1)
Step-bounded {chrono = chrono} h (persists clock outcome) low =
    omega (arith, low, persist-floor chrono outcome clock)

Reach-bounded :
    {chrono : Chrono} {bound : Time} {clock after : MonotonicFloor}
    → AddsForward chrono
    → Reach chrono (CeilingWithin chrono bound) clock after
    → clock.state.floor ≤ bound
    → after.state.floor ≤ bound
Reach-bounded h here low = low
Reach-bounded h (next r s) low = Step-bounded h s (Reach-bounded h r low)

stored-≤ :
    (top : Time) (observed : Option Time) → unwrap_or (filtered (λ t. leb t top) observed) 0 ≤ top
stored-≤ top none = omega arith
stored-≤ top (some t) = pick (leb t top) refl
  where
    pick : (b : Bool) → leb t top ≡ b → unwrap_or (if b then some t else none) 0 ≤ top
    pick true e = ground (arith, e)
    pick false e = omega arith

-- A clock that starts from its file, whatever that holds, never has a floor beyond a bound that
-- the ceilings of all readings of the wall clock keep to, the one at the start included: no file
-- and no exception can push it further. Adding seconds is taken not to lead back.
pub with_dir_at-bounded :
    (chrono : Chrono) (observed : Option Str) (wall bound : Time) (after : MonotonicFloor)
    → AddsForward chrono
    → ceiling chrono wall ≤ bound
    → Reach chrono (CeilingWithin chrono bound) (with_dir_at chrono observed wall) after
    → after.state.floor ≤ bound
unfolding with_dir_at
with_dir_at-bounded chrono observed wall bound after h le run =
    Reach-bounded h run
      (omega (arith, le, stored-≤ (ceiling chrono wall) (read_observed chrono observed)))
