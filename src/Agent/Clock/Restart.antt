-- ===== src/Agent/Clock/Restart.antt =====
-- crates/ferrum-agent/src/clock.rs: the floor in the file, and what a restart makes of it.
use ferrum.Prelude.{
  ℕ, ◌+◌, ◌≤◌, ◌≡◌, ◌≢◌, refl, ap, ◌∙◌, true, false, none, some, leb, ◌==◌, if◌then◌else◌, arith,
}
use ferrum.Text.{is_utf8, trim}
use ferrum.Agent.Clock.{
  Time, min_utc, Chrono, MonotonicFloor, Write, not_opened, not_written, not_renamed, landed,
  write_observed, read_observed, unwrap_or, filtered, noted, write_floor, persist, ceiling,
  with_dir_at,
}

-- What `chrono` promises of the text of a moment of the years 0 to 9999: it is UTF-8 with no white
-- space around it, and is parsed as that moment.
pub record ReadsBack (chrono : Chrono) (t : Time) : Type 0 where
  pub utf8 : is_utf8 (chrono.to_rfc3339 t) ≡ true
  pub bare : trim (chrono.to_rfc3339 t) ≡ chrono.to_rfc3339 t
  pub parsed : chrono.parse_from_rfc3339 (chrono.to_rfc3339 t) ≡ some t

read_observed-to_rfc3339 :
    (chrono : Chrono) (t : Time)
    → ReadsBack chrono t
    → read_observed chrono (some (chrono.to_rfc3339 t)) ≡ some t
unfolding read_observed
read_observed-to_rfc3339 chrono t r = rw r.utf8 (ap chrono.parse_from_rfc3339 r.bare ∙ r.parsed)

-- What a restart and the counters tell of the last write: where it landed, the floor is that of
-- the clock that stopped; where it failed, however far it came, the file is what it was.
abbrev pub IsRestart : MonotonicFloor → MonotonicFloor → MonotonicFloor → Write → Type 0
IsRestart clock stopped restarted landed =
    (restarted.state.floor ≡ clock.state.floor)
    × (restarted.state.persisted ≡ clock.state.floor)
    × (stopped.persist_failing ≡ false)
    × (stopped.persist_failed ≡ clock.persist_failed)
IsRestart clock stopped restarted outcome =
    (restarted.observed ≡ clock.observed)
    × (stopped.persist_failing ≡ true)
    × (stopped.persist_failed ≡ clock.persist_failed + 1)

persist-write_observed :
    (chrono : Chrono) (clock : MonotonicFloor) (outcome : Write)
    → clock.dir ≡ true
    → clock.state.floor ≢ min_utc
    → persist chrono outcome clock
      ≡ noted chrono (
          write_observed chrono outcome clock.state.floor (record clock {
            state = record { floor = clock.state.floor; persisted = clock.state.floor };
          }))
unfolding persist write_floor
persist-write_observed chrono clock outcome dir some_floor =
    rw (not_zero clock.state.floor some_floor, dir) refl
  where
    not_zero : (n : ℕ) → n ≢ 0 → (n == 0) ≡ false
    not_zero n h = ground (arith, h)

-- A clock with a directory that stops with a floor whose text `chrono` reads back, and writes it:
-- where the write lands, a clock that starts from the file with a wall clock not more than the
-- skew behind that floor has it again, and the write is not said to fail; where the write fails
-- at any step, the file is the one that was there, and the failure is counted.
pub persist-with_dir_at :
    (chrono : Chrono) (clock : MonotonicFloor) (outcome : Write) (wall : Time)
    → clock.dir ≡ true
    → clock.state.floor ≢ min_utc
    → ReadsBack chrono clock.state.floor
    → clock.state.floor ≤ ceiling chrono wall
    → IsRestart clock
        (persist chrono outcome clock)
        (with_dir_at chrono (persist chrono outcome clock).observed wall)
        outcome
unfolding with_dir_at write_observed
persist-with_dir_at chrono clock outcome wall dir some_floor back le =
    rw (persist-write_observed chrono clock outcome dir some_floor) (pick outcome)
  where
    kept : (n top : ℕ) → n ≤ top → unwrap_or (if leb n top then some n else none) 0 ≡ n
    kept n top h = ground (arith, h)

    flushed : MonotonicFloor
    flushed = record clock {
      state = record { floor = clock.state.floor; persisted = clock.state.floor };
    }

    found :
        unwrap_or
          (filtered
            (λ t. leb t (ceiling chrono wall))
            (read_observed chrono (some (chrono.to_rfc3339 clock.state.floor))))
          0
        ≡ clock.state.floor
    found =
        ap (λ o. unwrap_or (filtered (λ t. leb t (ceiling chrono wall)) o) 0)
          (read_observed-to_rfc3339 chrono clock.state.floor back)
        ∙ kept clock.state.floor (ceiling chrono wall) le

    pick :
        (outcome : Write)
        → IsRestart clock
            (noted chrono (write_observed chrono outcome clock.state.floor flushed))
            (with_dir_at chrono
              (noted chrono (write_observed chrono outcome clock.state.floor flushed)).observed
              wall)
            outcome
    pick not_opened = (refl, refl, refl)
    pick (not_written left) = (refl, refl, refl)
    pick not_renamed = (refl, refl, refl)
    pick landed = (found, found, refl, refl)
