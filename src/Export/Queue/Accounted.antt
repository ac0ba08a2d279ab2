-- ===== src/Export/Queue/Accounted.antt =====
-- crates/ferrum-export/src/queue.rs: no event is lost silently while the writer is there.
use ferrum.Prelude.{
  ℕ, ◌+◌, max, ◌≤◌, ◌≡◌, refl, sym, ap, subst, ◌∙◌, Bool, true, false, List, [], ◌∷◌, ◌++◌,
  append_assoc, length, length-append, ltb, if◌then◌else◌, arith,
}
use ferrum.Export.Queue.{
  Writer, receiving, draining, leaving, gone, QueueSink, new, close, has_room, offered, emit, wrote,
  Step, closes, receives, times_out, drains, finds_empty, returns, kept, Runs, opened, stepped,
  emitted,
}

module _ {ℓ} {E : Type ℓ} where
  -- The events accepted are those written, in order, and then those in the queue, which is never
  -- longer than its capacity; and every event offered was accepted or counted.
  pub record IsAccounted (cap : ℕ) (sink : QueueSink E) (accepted : List E) (offers : ℕ)
      : Type ℓ where
    pub in_order : sink.written ++ sink.queue ≡ accepted
    pub capacity : sink.cap ≡ max cap 1
    pub bound : length sink.queue ≤ max cap 1
    pub counted : length accepted + sink.queue_dropped + sink.writer_lost ≡ offers

  wrote-IsAccounted :
      (cap : ℕ) (sink : QueueSink E) (event : E) (rest accepted : List E) (offers : ℕ)
      → sink.queue ≡ event ∷ rest
      → IsAccounted cap sink accepted offers
      → IsAccounted cap (wrote event rest sink) accepted offers
  wrote-IsAccounted cap sink event rest accepted offers e a = record {
    in_order =
        append_assoc sink.written (event ∷ []) rest ∙ ap (◌++◌ sink.written) (sym e) ∙ a.in_order;
    capacity = a.capacity;
    bound = omega (arith, a.bound, ap length e);
    counted = a.counted;
  }

  Step-IsAccounted :
      {cap : ℕ} {sink after : QueueSink E} {accepted : List E} {offers : ℕ}
      → Step sink after
      → IsAccounted cap sink accepted offers
      → IsAccounted cap after accepted offers
  unfolding close
  Step-IsAccounted (closes sink) a = record {
    in_order = a.in_order;
    capacity = a.capacity;
    bound = a.bound;
    counted = a.counted;
  }
  Step-IsAccounted {cap = cap} {accepted = accepted} {offers = offers}
        (receives sink event rest w e) a =
      wrote-IsAccounted cap sink event rest accepted offers e a
  Step-IsAccounted (times_out sink w s) a = record {
    in_order = a.in_order;
    capacity = a.capacity;
    bound = a.bound;
    counted = a.counted;
  }
  Step-IsAccounted {cap = cap} {accepted = accepted} {offers = offers} (drains sink event rest w e)
        a =
      wrote-IsAccounted cap sink event rest accepted offers e a
  Step-IsAccounted (finds_empty sink w e) a = record {
    in_order = a.in_order;
    capacity = a.capacity;
    bound = a.bound;
    counted = a.counted;
  }
  Step-IsAccounted (returns sink w) a = record {
    in_order = a.in_order;
    capacity = a.capacity;
    bound = a.bound;
    counted = a.counted;
  }

  emit-IsAccounted :
      (cap : ℕ) (sink : QueueSink E) (accepted : List E) (offers : ℕ) (event : E)
      → IsAccounted cap sink accepted offers
      → IsAccounted cap (emit event sink).0 (kept event (emit event sink).1 accepted) (offers + 1)
  unfolding emit
  emit-IsAccounted cap sink accepted offers event a = pick sink.writer
    where
      fits : (n m : ℕ) → ltb n m ≡ true → n + 1 ≤ m
      fits n m e = ground (arith, e)

      room :
          (b : Bool)
          → has_room sink ≡ b
          → (pass : QueueSink E × Bool)
          → pass ≡ (
              if b
              then (record sink { queue = sink.queue ++ (event ∷ []) }, true)
              else (record sink { queue_dropped = sink.queue_dropped + 1 }, false))
          → IsAccounted cap pass.0 (kept event pass.1 accepted) (offers + 1)
      room true e pass p =
          subst (λ q. IsAccounted cap q.0 (kept event q.1 accepted) (offers + 1)) (sym p)
            (record {
              in_order =
                  sym (append_assoc sink.written sink.queue (event ∷ []))
                  ∙ ap (λ xs. xs ++ (event ∷ [])) a.in_order;
              capacity = a.capacity;
              bound = omega (
                arith,
                length-append sink.queue (event ∷ []),
                fits (length sink.queue) sink.cap e,
                a.capacity,
              );
              counted = omega (arith, length-append accepted (event ∷ []), a.counted);
            })
      room false e pass p =
          subst (λ q. IsAccounted cap q.0 (kept event q.1 accepted) (offers + 1)) (sym p)
            (record {
              in_order = a.in_order;
              capacity = a.capacity;
              bound = a.bound;
              counted = omega (arith, a.counted);
            })

      pick :
          (w : Writer)
          → IsAccounted cap
              (offered event sink w).0
              (kept event (offered event sink w).1 accepted)
              (offers + 1)
      pick receiving = room (has_room sink) refl _ refl
      pick draining = room (has_room sink) refl _ refl
      pick leaving = room (has_room sink) refl _ refl
      pick gone = record {
        in_order = a.in_order;
        capacity = a.capacity;
        bound = a.bound;
        counted = omega (arith, a.counted);
      }

  -- In every interleaving of emitters, of `close` and of the writer, the events accepted are those
  -- written, in the order of their acceptance, followed by those still in the queue, the queue
  -- keeps to its capacity, and each event offered was accepted or is counted as dropped or lost.
  pub Runs-IsAccounted :
      (cap : ℕ) (sink : QueueSink E) (accepted : List E) (offers : ℕ)
      → Runs cap sink accepted offers
      → IsAccounted cap sink accepted offers
  unfolding new
  Runs-IsAccounted cap _ _ _ opened = record {
    in_order = refl;
    capacity = refl;
    bound = omega arith;
    counted = refl;
  }
  Runs-IsAccounted cap _ accepted offers (stepped {sink = sink} run step) =
      Step-IsAccounted step (Runs-IsAccounted cap sink accepted offers run)
  Runs-IsAccounted cap _ _ _
        (emitted {sink = sink} {accepted = accepted} {offers = offers} run event) =
      emit-IsAccounted cap sink accepted offers event
        (Runs-IsAccounted cap sink accepted offers run)
