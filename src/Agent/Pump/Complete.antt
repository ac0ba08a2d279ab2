-- ===== src/Agent/Pump/Complete.antt =====
-- crates/ferrum-agent/src/pump.rs: no record is lost, and none is handled twice.
use ferrum.Prelude.{
  ℕ, ◌+◌, ◌≡◌, Bool, true, false, ◌&&◌, not, Option, none, some, List, [], ◌∷◌, length, ◌==◌,
  if◌then◌else◌, arith,
}
use ferrum.Text.{Str}
use ferrum.Error.{Message, Result, ok, err, integrity}
use ferrum.Datapath.Record.{Event, datapath_abi}
use ferrum.Ebpf.Event.{
  SyscallArch, syscall_name, event_wire_len, abi_of, read_fields, decode_event, abi_stamp_mismatch,
}
use ferrum.Agent.Pump.{
  PumpStats, no_stats, Calls, pump_event, pump_failure, pump_record, pump_from, pump_records,
}

-- The bytes of a record of this build: of its length, with its stamp.
abbrev pub is_record : Str → Bool
is_record bytes = (length bytes == event_wire_len) && (abi_of bytes == datapath_abi)

abbrev pub bit : Bool → ℕ
bit true = 1
bit false = 0

abbrev pub count : (Str → Bool) → List Str → ℕ
count p [] = 0
count p (bytes ∷ records) = bit (p bytes) + count p records

abbrev pub total : PumpStats → ℕ
total stats = stats.handled + stats.decode_failed + stats.unknown_syscall

-- A count of the agent that `handle_event` alone raises.
pub record CountsEvents {ℓ} {A : Type ℓ} (calls : Calls A) (events : A → ℕ) : Type ℓ where
  pub handled : (event : Event) (a : A) → events (calls.handle_event event a) ≡ events a + 1
  pub decoded : (a : A) → events (calls.record_decode_success a) ≡ events a
  pub unknown : (a : A) → events (calls.record_unknown_syscall a) ≡ events a
  pub stamped : (n : ℕ) (a : A) → events (calls.record_datapath_abi_mismatch n a) ≡ events a
  pub malformed : (a : A) → events (calls.record_decode_failure a) ≡ events a

-- What some records add: to all counts, to that of failures and to that of the agent.
pub record IsPumped {ℓ} {A : Type ℓ} (events : A → ℕ) (records good : ℕ)
    (before after : A × PumpStats) : Type 0 where
  pub all : total after.1 ≡ total before.1 + records
  pub failed : after.1.decode_failed + good ≡ before.1.decode_failed + records
  pub decided : events after.0 ≡ events before.0 + good

module _ {ℓ} {A : Type ℓ} (calls : Calls A) (arch : SyscallArch) (events : A → ℕ)
    (counts : CountsEvents calls events) where
  pump_event-IsPumped :
      (event : Event) (state : A × PumpStats)
      → IsPumped events 1 1 state (pump_event calls arch event state)
  unfolding pump_event
  pump_event-IsPumped event (agent, stats) = pick (syscall_name arch event.syscall_nr)
    where
      decoded : A
      decoded = calls.record_decode_success agent

      after : Option Str → A × PumpStats
      after o = elim o [
        | none ↦ (
          calls.handle_event event (calls.record_unknown_syscall decoded),
          record stats { unknown_syscall = stats.unknown_syscall + 1 },
        )
        | some name ↦
            (calls.handle_event event decoded, record stats { handled = stats.handled + 1 })
      ]

      pick : (o : Option Str) → IsPumped events 1 1 (agent, stats) (after o)
      pick none = record {
        all = omega arith;
        failed = omega arith;
        decided = omega (
          arith,
          counts.handled event (calls.record_unknown_syscall decoded),
          counts.unknown decoded,
          counts.decoded agent,
        );
      }
      pick (some name) = record {
        all = omega arith;
        failed = omega arith;
        decided = omega (arith, counts.handled event decoded, counts.decoded agent);
      }

  pump_failure-IsPumped :
      (stamp : Option ℕ) (state : A × PumpStats)
      → IsPumped events 1 0 state (pump_failure calls arch stamp state)
  unfolding pump_failure
  pump_failure-IsPumped none (agent, stats) = record {
    all = omega arith;
    failed = omega arith;
    decided = omega (arith, counts.malformed agent);
  }
  pump_failure-IsPumped (some n) (agent, stats) = record {
    all = omega arith;
    failed = omega arith;
    decided = omega (arith, counts.stamped n agent);
  }

  pump_record-IsPumped :
      (bytes : Str) (state : A × PumpStats)
      → IsPumped events 1 (bit (is_record bytes)) state (pump_record calls arch bytes state)
  unfolding pump_record decode_event
  pump_record-IsPumped bytes state =
      pick (length bytes == event_wire_len) (abi_of bytes == datapath_abi)
    where
      after : Result Event → A × PumpStats
      after r = elim r [
        | ok event ↦ pump_event calls arch event state
        | err e ↦ pump_failure calls arch (abi_stamp_mismatch bytes) state
      ]

      pick :
          (a b : Bool)
          → IsPumped events 1 (bit (a && b)) state (
              after (
                if not a
                then err (integrity (Message.record_length (length bytes)))
                else if not b
                then err (integrity (Message.record_abi (abi_of bytes)))
                else ok (read_fields bytes)))
      pick true true = pump_event-IsPumped (read_fields bytes) state
      pick true false = pump_failure-IsPumped (abi_stamp_mismatch bytes) state
      pick false b = pump_failure-IsPumped (abi_stamp_mismatch bytes) state

  pump_from-IsPumped :
      (records : List Str) (state : A × PumpStats)
      → IsPumped events
          (length records)
          (count is_record records)
          state
          (pump_from calls arch records state)
  unfolding pump_from
  pump_from-IsPumped [] state = record {
    all = omega arith;
    failed = omega arith;
    decided = omega arith;
  }
  pump_from-IsPumped (bytes ∷ records) state =
      let first = pump_record-IsPumped bytes state in
      let rest = pump_from-IsPumped records (pump_record calls arch bytes state) in
      record {
        all = omega (arith, first.all, rest.all);
        failed = omega (arith, first.failed, rest.failed);
        decided = omega (arith, first.decided, rest.decided);
      }

-- The numbers of records handled, of an unknown syscall and not decoded add up to the number of
-- records, those not decoded are the ones that are not of this build's length and stamp, and each
-- other record reaches the decision once, for every count that handling an event alone raises.
pub pump_records-IsPumped {ℓ} :
    {A : Type ℓ} (calls : Calls A) (arch : SyscallArch) (events : A → ℕ) (records : List Str)
    (agent : A)
    → CountsEvents calls events
    → (total (pump_records calls arch records agent).1 ≡ length records)
      × ((pump_records calls arch records agent).1.decode_failed + count is_record records
          ≡ length records)
      × (events (pump_records calls arch records agent).0 ≡ events agent + count is_record records)
unfolding pump_records
pump_records-IsPumped calls arch events records agent counts =
    let p = pump_from-IsPumped calls arch events counts records (agent, no_stats) in
    (omega (arith, p.all), omega (arith, p.failed), p.decided)
