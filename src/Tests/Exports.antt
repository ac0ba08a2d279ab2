-- ===== src/Tests/Exports.antt =====
-- Runs of the queue of exported events.
use ferrum.Prelude.{ℕ, ◌+◌, [], ◌∷◌, ◌≡◌, refl}
use ferrum.Export.Queue.{
  QueueSink, gone, new, close, emit, Runs, opened, stepped, emitted, closes, times_out, drains,
  finds_empty, returns, wrote, leaving,
}
use ferrum.Export.Queue.Accounted.{IsAccounted, Runs-IsAccounted}

-- A queue of one event: 5 is accepted and 6 is dropped.
abbrev full_queue : QueueSink ℕ
full_queue = (emit 6 (emit 5 (new 1)).0).0

abbrev flushed : QueueSink ℕ
flushed = record (wrote 5 [] (close full_queue)) { writer = gone }

abbrev lost_after : QueueSink ℕ
lost_after = (emit 7 flushed).0

lost_after-counts :
    (lost_after.written ≡ 5 ∷ []) × (lost_after.queue_dropped ≡ 1) × (lost_after.writer_lost ≡ 1)
unfolding new emit close
lost_after-counts = (refl, refl, refl)

full_queue-Runs : Runs 1 full_queue (5 ∷ []) 2
unfolding new emit
full_queue-Runs = emitted (emitted opened 5) 6

lost_after-Runs : Runs 1 lost_after (5 ∷ []) 3
unfolding new emit close
lost_after-Runs =
    emitted
      (stepped
        (stepped
          (stepped (stepped (stepped full_queue-Runs (closes _)) (times_out _ refl refl))
            (drains _ 5 [] refl refl))
          (finds_empty _ refl refl))
        (returns _ refl))
      7

Runs-IsAccounted_example : IsAccounted 1 lost_after (5 ∷ []) 3
Runs-IsAccounted_example = Runs-IsAccounted 1 lost_after (5 ∷ []) 3 lost_after-Runs

-- An event that is accepted after the writer found the queue empty and before it returned.
abbrev stopping_queue : QueueSink ℕ
stopping_queue = record (close (new 1)) { writer = leaving }

abbrev stranded : QueueSink ℕ
stranded = record (emit 7 stopping_queue).0 { writer = gone }

stranded-Runs : Runs 1 stranded (7 ∷ []) 1
unfolding new emit close
stranded-Runs =
    stepped
      (emitted
        (stepped (stepped (stepped opened (closes _)) (times_out _ refl refl))
          (finds_empty _ refl refl))
        7)
      (returns _ refl)

stranded-counts :
    (stranded.written ≡ [])
    × (stranded.queue ≡ 7 ∷ [])
    × (stranded.queue_dropped + stranded.writer_lost ≡ 0)
unfolding new emit close
stranded-counts = (refl, refl, refl)
