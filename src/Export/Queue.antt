-- ===== src/Export/Queue.antt =====
-- crates/ferrum-export/src/queue.rs: the bounded queue between the decision and the writer. What the
-- threads do is a sequence of steps; the channel of the standard library is the list of the events
-- in it. A sink that panics is left out.
pub mod Accounted
use ferrum.Prelude.{
  ℕ, ◌+◌, max, Bool, true, false, List, [], ◌∷◌, ◌++◌, length, ltb, if◌then◌else◌, ◌≡◌, ◌≤◌,
}

-- Where the writer is: in `recv_timeout`, in the loop of `try_recv`, behind it, or returned.
pub data Writer : Type 0 where
  receiving draining leaving gone : Writer

pub record QueueSink {ℓ} (E : Type ℓ) : Type ℓ where
  pub cap : ℕ
  pub queue : List E
  pub written : List E
  pub writer : Writer
  pub stopping : Bool
  pub queue_dropped : ℕ
  pub writer_lost : ℕ
  pub writer_dead : Bool

module _ {ℓ} {E : Type ℓ} where
  -- `QueueSink::new`.
  unfoldable pub new : ℕ → QueueSink E
  new cap = record {
    cap = max cap 1;
    queue = [];
    written = [];
    writer = receiving;
    stopping = false;
    queue_dropped = 0;
    writer_lost = 0;
    writer_dead = false;
  }

  -- `close`, up to the wait for the writer.
  unfoldable pub close : QueueSink E → QueueSink E
  close sink = record sink { stopping = true }

  abbrev pub has_room : QueueSink E → Bool
  has_room sink = ltb (length sink.queue) sink.cap

  -- `emit`, of a writer that is there or has returned; with whether the event was accepted.
  abbrev pub offered : E → QueueSink E → Writer → QueueSink E × Bool
  offered event sink gone =
      (record sink { writer_lost = sink.writer_lost + 1; writer_dead = true }, false)
  offered event sink _ =
      if has_room sink
      then (record sink { queue = sink.queue ++ (event ∷ []) }, true)
      else (record sink { queue_dropped = sink.queue_dropped + 1 }, false)

  unfoldable pub emit : E → QueueSink E → QueueSink E × Bool
  emit event sink = offered event sink sink.writer

  -- The writer takes the event at the head and hands it to the sink behind.
  abbrev pub wrote : E → List E → QueueSink E → QueueSink E
  wrote event rest sink = record sink { queue = rest; written = sink.written ++ (event ∷ []) }

  -- One step of some thread.
  pub data Step : QueueSink E → QueueSink E → Type ℓ where
    closes : (sink : QueueSink E) → Step sink (close sink)
    receives :
        (sink : QueueSink E) (event : E) (rest : List E)
        → sink.writer ≡ receiving
        → sink.queue ≡ event ∷ rest
        → Step sink (wrote event rest sink)
    times_out :
        (sink : QueueSink E)
        → sink.writer ≡ receiving
        → sink.stopping ≡ true
        → Step sink (record sink { writer = draining })
    drains :
        (sink : QueueSink E) (event : E) (rest : List E)
        → sink.writer ≡ draining
        → sink.queue ≡ event ∷ rest
        → Step sink (wrote event rest sink)
    finds_empty :
        (sink : QueueSink E)
        → sink.writer ≡ draining
        → sink.queue ≡ []
        → Step sink (record sink { writer = leaving })
    returns :
        (sink : QueueSink E) → sink.writer ≡ leaving → Step sink (record sink { writer = gone })

  abbrev pub kept : E → Bool → List E → List E
  kept event true accepted = accepted ++ (event ∷ [])
  kept event false accepted = accepted

  -- The runs of a queue, with the events accepted so far and the number of those offered.
  pub data Runs (cap : ℕ) : QueueSink E → List E → ℕ → Type ℓ where
    opened : Runs cap (new cap) [] 0
    stepped :
        {sink after : QueueSink E} {accepted : List E} {offers : ℕ}
        → Runs cap sink accepted offers
        → Step sink after
        → Runs cap after accepted offers
    emitted :
        {sink : QueueSink E} {accepted : List E} {offers : ℕ}
        → Runs cap sink accepted offers
        → (event : E)
        → Runs cap (emit event sink).0 (kept event (emit event sink).1 accepted) (offers + 1)
