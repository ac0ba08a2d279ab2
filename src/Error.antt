-- ===== src/Error.antt =====
-- crates/ferrum-common: the error type that the crates share. A message is kept as the text that
-- it is and the values that `format!` puts into it, not as one string.
pub mod Laws
use ferrum.Prelude.{ℕ, List}
use ferrum.Text.{Str}

-- The three texts of `equivalence_gap`.
pub data EquivalenceGap : Type 0 where
  bypass_on : List Str → EquivalenceGap
  dead_off : List Str → EquivalenceGap
  bypass_anywhere : EquivalenceGap

pub data Message : Type 0 where
  -- the validator
  unobserved_syscall : Str → Str → Message
  gap_syscall : Str → Str → Str → EquivalenceGap → Message
  unseen_comm unseen_prefix unseen_suffix : Str → Str → ℕ → Message
  inert_deny inert_isolate duplicate_rule_id kill_all_policy_rule : Str → Message
  kill_all_policy deny_policy no_rule_id : Message
  -- the validator of exceptions
  no_ticket short_reason no_approver self_approved dead_on_arrival overlong_waiver : Message
  no_target_policies no_target_rules : Message
  -- the FEBP reader
  truncated bad_magic non_utf8 trailing : Message
  invalid_bool unknown_mode unknown_action abi_mismatch : ℕ → Message
  -- the load gates
  kill_all_default : ℕ → Message
  kill_all_rule : Str → Message
  unhooked_syscall : Str → Str → Message
  long_comm long_pattern : Str → Str → ℕ → Message
  -- the ring record
  record_length record_abi : ℕ → Message
  -- the FEBP writer
  long_string long_list long_labels long_expressions long_rules : ℕ → Message

pub data FerrumError : Type 0 where
  validation compile integrity degraded : Message → FerrumError

pub data Result {ℓ} (A : Type ℓ) : Type ℓ where
  err : FerrumError → Result A
  ok : A → Result A

-- The operator `?`.
infixl 5 ◌>>=◌
abbrev pub ◌>>=◌ {ℓ κ} : {A : Type ℓ} → {B : Type κ} → Result A → (A → Result B) → Result B
err failure >>= next = err failure
ok value >>= next = next value
