-- ===== src/Agent/Clock.antt =====
-- crates/ferrum-agent/src/clock.rs: the wall clock that never goes back. A moment is a number that
-- grows with time from `DateTime::<Utc>::MIN_UTC` on; the arithmetic on moments belongs to the
-- crate `chrono` and is a parameter, as are its text of a moment and how a write of the file ends.
pub mod Floor
pub mod Restart
pub mod Runs
use ferrum.Prelude.{
  ℕ, zero, suc, ◌+◌, max, min, Bool, true, false, ◌&&◌, not, Option, none, some, List, [], ◌∷◌, ltb,
  leb, ◌==◌, if◌then◌else◌,
}
use ferrum.Text.{Str, is_utf8, trim}
use ferrum.Error.{Result, ok, err}
use ferrum.Policy.Exceptions.{PolicyExceptionSpec, max_exception_days, validate_exception}

abbrev pub Time : Type 0
Time = ℕ

abbrev pub min_utc : Time
min_utc = 0

abbrev pub max_anchor_skew_secs : ℕ
max_anchor_skew_secs = 300

abbrev pub persist_step_secs : ℕ
persist_step_secs = 60

-- What the clock calls of `chrono`: `checked_add_signed` of seconds, `checked_sub_days`, the addition
-- of days that `validate_exception` calls, `num_seconds` of the difference of two moments, and the
-- text of a moment and back, to UTC.
pub record Chrono : Type 0 where
  pub add_seconds : Time → ℕ → Option Time
  pub sub_days : Time → ℕ → Option Time
  pub add_days : Time → ℕ → Time
  pub seconds_since : Time → Time → ℕ
  pub to_rfc3339 : Time → Str
  pub parse_from_rfc3339 : Str → Option Time

-- `FloorState`.
pub record FloorState : Type 0 where
  pub floor : Time
  pub persisted : Time

-- `observed` is what the file `observed-time` in `dir` holds, where a directory was given, and `tmp`
-- what the file beside it holds that a write fills first.
pub record MonotonicFloor : Type 0 where
  pub dir : Bool
  pub state : FloorState
  pub rollbacks : ℕ
  pub persist_failed : ℕ
  pub persist_failing : Bool
  pub observed : Option Str
  pub tmp : Option Str

-- `MonotonicFloor::new`.
unfoldable pub new : MonotonicFloor
new = record {
  dir = false;
  state = record { floor = min_utc; persisted = min_utc };
  rollbacks = 0;
  persist_failed = 0;
  persist_failing = false;
  observed = none;
  tmp = none;
}

abbrev pub unwrap_or {ℓ} : {A : Type ℓ} → Option A → A → A
unwrap_or none a = a
unwrap_or (some b) a = b

abbrev pub filtered {ℓ} : {A : Type ℓ} → (A → Bool) → Option A → Option A
filtered p none = none
filtered p (some a) = if p a then some a else none

-- The later of the anchor so far and of one more.
abbrev pub latest : Option Time → Option Time → Option Time
latest none b = b
latest (some a) none = some a
latest (some a) (some b) = some (max a b)

-- How `write_observed` ends: the directory or the file cannot be opened, the bytes given are left of
-- a write that fails, the file cannot be renamed, or it is in its place.
pub data Write : Type 0 where
  not_opened : Write
  not_written : Str → Write
  not_renamed : Write
  landed : Write

module _ (chrono : Chrono) where
  -- `write_observed`, with whether it is `Ok`.
  unfoldable pub write_observed : Write → Time → MonotonicFloor → MonotonicFloor × Bool
  write_observed not_opened when clock = (clock, false)
  write_observed (not_written left) when clock = (record clock { tmp = some left }, false)
  write_observed not_renamed when clock =
      (record clock { tmp = some (chrono.to_rfc3339 when) }, false)
  write_observed landed when clock =
      (record clock { observed = some (chrono.to_rfc3339 when); tmp = none }, true)

  -- `read_observed`, of what the file holds, if it can be read; `read_to_string` reads UTF-8 only.
  unfoldable pub read_observed : Option Str → Option Time
  read_observed none = none
  read_observed (some raw) = if is_utf8 raw then chrono.parse_from_rfc3339 (trim raw) else none

  abbrev pub noted : MonotonicFloor × Bool → MonotonicFloor
  noted (clock, true) = record clock { persist_failing = false }
  noted (clock, false) = record clock {
    persist_failed = clock.persist_failed + 1;
    persist_failing = true;
  }

  unfoldable pub write_floor : Write → Time → MonotonicFloor → MonotonicFloor
  unfolding write_observed
  write_floor outcome when clock =
      if not clock.dir then clock else noted (write_observed outcome when clock)

  -- `persist`.
  unfoldable pub persist : Write → MonotonicFloor → MonotonicFloor
  unfolding write_floor
  persist outcome clock =
      if clock.state.floor == min_utc
      then clock
      else write_floor outcome clock.state.floor (record clock {
        state = record { floor = clock.state.floor; persisted = clock.state.floor };
      })

  unfoldable pub ceiling : Time → Time
  ceiling wall = unwrap_or (chrono.add_seconds wall max_anchor_skew_secs) wall

  -- `with_dir_at`, of what the file holds.
  unfoldable pub with_dir_at : Option Str → Time → MonotonicFloor
  unfolding ceiling read_observed
  with_dir_at observed wall =
      let stored =
        unwrap_or (filtered (λ t. leb t (ceiling wall)) (read_observed observed)) min_utc in
      record {
        dir = true;
        state = record { floor = stored; persisted = stored };
        rollbacks = 0;
        persist_failed = 0;
        persist_failing = false;
        observed = observed;
        tmp = none;
      }

  -- One spec's anchor: that of a spec that is valid at `now`, 90 days before it expires.
  unfoldable pub anchor_of : Time → PolicyExceptionSpec Time → Option Time
  anchor_of now spec = elim (validate_exception ltb chrono.add_days spec now) [
    | ok done ↦ chrono.sub_days spec.expires_at max_exception_days
    | err e ↦ none
  ]

  unfoldable pub anchor_from : Time → List (PolicyExceptionSpec Time) → Option Time
  unfolding anchor_of
  anchor_from now [] = none
  anchor_from now (spec ∷ specs) = latest (anchor_of now spec) (anchor_from now specs)

  -- `anchor_from_exceptions_at`; `now` is the reading that `validate_exception` takes itself.
  unfoldable pub anchor_from_exceptions_at :
      List (PolicyExceptionSpec Time) → Time → Time → MonotonicFloor → MonotonicFloor
  unfolding anchor_from ceiling
  anchor_from_exceptions_at specs wall now clock = elim (anchor_from now specs) [
    | none ↦ clock
    | some anchor ↦
        if ltb clock.state.floor (min anchor (ceiling wall))
        then record clock {
          state = record { floor = min anchor (ceiling wall); persisted = clock.state.persisted };
        }
        else clock
  ]

  -- `now_from`, with the moment it answers.
  unfoldable pub now_from : Write → Time → MonotonicFloor → MonotonicFloor × Time
  unfolding write_floor
  now_from outcome wall clock =
      if ltb wall clock.state.floor
      then (record clock { rollbacks = clock.rollbacks + 1 }, clock.state.floor)
      else if leb persist_step_secs (chrono.seconds_since wall clock.state.persisted)
      then (
        write_floor outcome wall
            (record clock { state = record { floor = wall; persisted = wall } }),
        wall,
      )
      else (
        record clock { state = record { floor = wall; persisted = clock.state.persisted } },
        wall,
      )
