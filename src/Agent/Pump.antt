-- ===== src/Agent/Pump.antt =====
-- crates/ferrum-agent/src/pump.rs: the loop over raw records.
pub mod Complete
use ferrum.Prelude.{ℕ, ◌+◌, Option, none, some, List, [], ◌∷◌, ◌++◌}
use ferrum.Text.{Str}
use ferrum.Error.{Result, ok, err, FerrumError}
use ferrum.Ebpf.Event.{
  SyscallArch, syscall_name, decode_event, abi_stamp_mismatch, syscall_event, event_meta,
}
use ferrum.Datapath.Record.{Event}

pub record PumpStats : Type 0 where
  pub handled : ℕ
  pub decode_failed : ℕ
  pub unknown_syscall : ℕ

-- `PumpStats::default()`.
abbrev pub no_stats : PumpStats
no_stats = record { handled = 0; decode_failed = 0; unknown_syscall = 0 }

-- What the loop calls of the agent; its state is a parameter.
pub record Calls {ℓ} (A : Type ℓ) : Type ℓ where
  pub record_decode_success : A → A
  pub record_unknown_syscall : A → A
  pub handle_event : Event → A → A
  pub record_datapath_abi_mismatch : ℕ → A → A
  pub record_decode_failure : A → A

module _ {ℓ} {A : Type ℓ} (calls : Calls A) (arch : SyscallArch) where
  -- A record that was decoded.
  unfoldable pub pump_event : Event → A × PumpStats → A × PumpStats
  pump_event event (agent, stats) =
      let decoded = calls.record_decode_success agent in
      elim (syscall_name arch event.syscall_nr) [
        | none ↦ (
          calls.handle_event event (calls.record_unknown_syscall decoded),
          record stats { unknown_syscall = stats.unknown_syscall + 1 },
        )
        | some name ↦
            (calls.handle_event event decoded, record stats { handled = stats.handled + 1 })
      ]

  -- A record that was not.
  unfoldable pub pump_failure : Option ℕ → A × PumpStats → A × PumpStats
  pump_failure (some stamp) (agent, stats) = (
    calls.record_datapath_abi_mismatch stamp agent,
    record stats { decode_failed = stats.decode_failed + 1 },
  )
  pump_failure none (agent, stats) =
      (calls.record_decode_failure agent, record stats { decode_failed = stats.decode_failed + 1 })

  -- The body of the loop.
  unfoldable pub pump_record : Str → A × PumpStats → A × PumpStats
  unfolding pump_event pump_failure
  pump_record bytes state = elim (decode_event bytes) [
    | ok event ↦ pump_event event state
    | err e ↦ pump_failure (abi_stamp_mismatch bytes) state
  ]

  unfoldable pub pump_from : List Str → A × PumpStats → A × PumpStats
  unfolding pump_record
  pump_from [] state = state
  pump_from (bytes ∷ records) state = pump_from records (pump_record bytes state)

  unfoldable pub pump_records : List Str → A → A × PumpStats
  unfolding pump_from
  pump_records records agent = pump_from records (agent, no_stats)
