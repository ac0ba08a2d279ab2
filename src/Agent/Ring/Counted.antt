-- ===== src/Agent/Ring/Counted.antt =====
-- crates/ferrum-agent/src/ring.rs: no drop is reported twice, and none is left unread for long.
use ferrum.Prelude.{
  ℕ, ◌+◌, ◌-◌, ◌*◌, min, ◌≤◌, ◌<◌, ◌≡◌, refl, ◌∙◌, ◌⊎◌, inl, inr, Bool, true, false, none, some,
  leb, ◌==◌, if◌then◌else◌, arith,
}
use ferrum.Agent.Ring.{
  idle_min, idle_max, RingTick, RingLoop, new, back_off, count_drops, poll_drops, tick,
}
use ferrum.Agent.Ring.Runs.{Runs}

-- The counter of the kernel never goes down.
abbrev pub Grows : (ℕ → ℕ) → Type 0
Grows total = (t u : ℕ) → t ≤ u → total t ≤ total u

-- What is reported at `now` is what the counter read at some moment less than an interval before,
-- or, where no interval has passed since the start, nothing.
pub record IsFresh (interval start : ℕ) (total : ℕ → ℕ) (now reported : ℕ) : Type 0 where
  pub read : ℕ
  pub past : read ≤ now
  pub recent : now < read + interval
  pub reads : (reported ≡ total read) ⊎ (read ≡ start) × (reported ≡ 0)

record IsDue (interval start : ℕ) (total : ℕ → ℕ) (ring : RingLoop) (now reported : ℕ)
    : Type 0 where
  fresh : IsFresh interval start total now reported
  every : ring.drop_interval ≡ interval
  next : ring.next_drop_check ≡ fresh.read + interval
  seen : ring.seen_drops ≡ reported

-- A pass either polls, and the counter is seen and the next poll put off, or changes none of it.
abbrev Polled : RingLoop → ℕ → ℕ → RingLoop × RingTick → Type 0
Polled ring now total pass =
    (ring.next_drop_check ≤ now)
    × (pass.0.next_drop_check ≡ now + ring.drop_interval)
    × (pass.0.seen_drops ≡ total)
    × (pass.1.drop_delta ≡ total - ring.seen_drops)

abbrev Waited : RingLoop → ℕ → RingLoop × RingTick → Type 0
Waited ring now pass =
    (now < ring.next_drop_check)
    × (pass.0.next_drop_check ≡ ring.next_drop_check)
    × (pass.0.seen_drops ≡ ring.seen_drops)
    × (pass.1.drop_delta ≡ 0)

abbrev IsPass : RingLoop → ℕ → ℕ → RingLoop × RingTick → Type 0
IsPass ring now total pass =
    (pass.0.drop_interval ≡ ring.drop_interval)
    × (Polled ring now total pass ⊎ Waited ring now pass)

-- The backoff touches nothing of the poll.
abbrev IsApart : RingLoop → RingLoop × RingTick → Type 0
IsApart ring (after, t) =
    (after.drop_interval ≡ ring.drop_interval)
    × (after.next_drop_check ≡ ring.next_drop_check)
    × (after.seen_drops ≡ ring.seen_drops)
    × (t.drop_delta ≡ 0)

back_off-IsApart : (ring : RingLoop) (records : ℕ) → IsApart ring (back_off ring records)
unfolding back_off
back_off-IsApart ring records = pick (records == 0)
  where
    pick :
        (b : Bool)
        → IsApart ring (
            if b
            then (
              record ring { idle = min (ring.idle * 2) idle_max },
              record {
                records = records;
                sleep = some ring.idle;
                drop_delta = 0;
                drop_check_failed = false;
              },
            )
            else (
              record ring { idle = idle_min },
              record { records = records; sleep = none; drop_delta = 0; drop_check_failed = false },
            ))
    pick true = (refl, refl, refl, refl)
    pick false = (refl, refl, refl, refl)

poll_drops-IsPass :
    (ring : RingLoop) (now total : ℕ) (pass : RingLoop × RingTick)
    → IsApart ring pass
    → IsPass ring now total (poll_drops now (some total) pass)
unfolding poll_drops
poll_drops-IsPass ring now total (after, t) h = pick (leb after.next_drop_check now) refl
  where
    le_of : (m n : ℕ) → leb m n ≡ true → m ≤ n
    le_of m n e = ground (arith, e)

    lt_of : (m n : ℕ) → leb m n ≡ false → n < m
    lt_of m n e = ground (arith, e)

    pick :
        (b : Bool)
        → leb after.next_drop_check now ≡ b
        → IsPass ring now total (
            if b
            then count_drops
                (some total)
                (record after { next_drop_check = now + after.drop_interval }, t)
            else (after, t))
    pick true e = (
      h.0,
      inl (
        omega (arith, le_of after.next_drop_check now e, h.1),
        omega (arith, h.0),
        refl,
        omega (arith, h.2),
      ),
    )
    pick false e = (h.0, inr (omega (arith, lt_of after.next_drop_check now e, h.1), h.1, h.2, h.3))

tick-IsPass :
    (ring : RingLoop) (now records total : ℕ)
    → IsPass ring now total (tick ring now records (some total))
unfolding tick
tick-IsPass ring now records total =
    poll_drops-IsPass ring now total (back_off ring records) (back_off-IsApart ring records)

IsDue-tick :
    (interval start : ℕ) (total : ℕ → ℕ) (ring : RingLoop) (now reported later records : ℕ)
    → Grows total
    → 0 < interval
    → now ≤ later
    → IsDue interval start total ring now reported
    → IsDue interval start total
        (tick ring later records (some (total later))).0
        later
        (reported + (tick ring later records (some (total later))).1.drop_delta)
IsDue-tick interval start total ring now reported later records grows some_time le due =
    go (tick ring later records (some (total later))) (tick-IsPass ring later records (total later))
  where
    below :
        (reported ≡ total due.fresh.read) ⊎ (due.fresh.read ≡ start) × (reported ≡ 0)
        → reported ≤ total later
    below (inl e) = omega (arith, e, grows due.fresh.read later (omega (arith, le, due.fresh.past)))
    below (inr e) = omega (arith, e.1)

    go :
        (pass : RingLoop × RingTick)
        → IsPass ring later (total later) pass
        → IsDue interval start total pass.0 later (reported + pass.1.drop_delta)
    go pass (every, inl (late, next, seen, delta)) =
        let all : reported + pass.1.drop_delta ≡ total later =
          omega (arith, delta, due.seen, below due.fresh.reads) in
        record {
          fresh = record {
            read = later;
            past = omega arith;
            recent = omega (arith, some_time);
            reads = inl all;
          };
          every = every ∙ due.every;
          next = omega (arith, next, due.every);
          seen = omega (arith, seen, all);
        }
    go pass (every, inr (early, next, seen, delta)) = record {
      fresh = record {
        read = due.fresh.read;
        past = omega (arith, le, due.fresh.past);
        recent = omega (arith, early, due.next);
        reads = same due.fresh.reads (omega (arith, delta));
      };
      every = every ∙ due.every;
      next = next ∙ due.next;
      seen = omega (arith, seen, due.seen, delta);
    }
      where
        same :
            {m n : ℕ}
            → (m ≡ total due.fresh.read) ⊎ (due.fresh.read ≡ start) × (m ≡ 0)
            → n ≡ m
            → (n ≡ total due.fresh.read) ⊎ (due.fresh.read ≡ start) × (n ≡ 0)
        same (inl e) f = inl (f ∙ e)
        same (inr (e, g)) f = inr (e, f ∙ g)

Runs-IsDue :
    {interval start : ℕ} {total : ℕ → ℕ} {ring : RingLoop} {now reported : ℕ}
    → Grows total
    → 0 < interval
    → Runs interval start total ring now reported
    → IsDue interval start total ring now reported
unfolding new
Runs-IsDue {start = start} grows some_time Runs.begun = record {
  fresh = record {
    read = start;
    past = omega arith;
    recent = omega (arith, some_time);
    reads = inr (refl, refl);
  };
  every = refl;
  next = refl;
  seen = refl;
}
Runs-IsDue {interval = interval} {start = start} {total = total} grows some_time
      (Runs.passed {ring = ring} {now = now} {reported = reported} run later records le) =
    IsDue-tick interval start total ring now reported later records grows some_time le
      (Runs-IsDue grows some_time run)

-- Whatever the passes drained, a ring that is always full included, the drops reported in all by
-- the end of a pass are what the counter read less than an interval before it, or none where the
-- reader started less than an interval before, if the counter never goes down and can be read.
pub Runs-IsFresh :
    (interval start : ℕ) (total : ℕ → ℕ) (ring : RingLoop) (now reported : ℕ)
    → Grows total
    → 0 < interval
    → Runs interval start total ring now reported
    → IsFresh interval start total now reported
Runs-IsFresh interval start total ring now reported grows some_time run =
    (Runs-IsDue grows some_time run).fresh
