-- ===== src/Agent/Respond.antt =====
-- crates/ferrum-agent/src/respond.rs: the guards before a signal.
use ferrum.Prelude.{
  ℕ, ◌^◌, Bool, ◌&&◌, ◌||◌, not, Option, none, some, leb, ltb, ◌==◌, if◌then◌else◌,
}
use ferrum.Text.{Str}

-- `1 << 22`.
abbrev pub max_tgid : ℕ
max_tgid = 4194304

-- The reasons that are exported; the last is the text of the responder's error.
pub data Refusal : Type 0 where
  role agent_self not_container unknown_identity labels_unknown : Refusal
  tgid_zero tgid_init tgid_self tgid_range : Refusal
  isolate deny_not_enforceable no_responder stale_target target_gone : Refusal
  target_unprovable responder_failed : Str → Refusal

-- `i32::try_from(tgid).is_err()` of a `u32`.
abbrev pub beyond_i32 : ℕ → Bool
beyond_i32 tgid = leb (2 ^ 31) tgid

-- `own` is the pid of the agent, `std::process::id()`.
unfoldable pub refuse_reason : ℕ → Bool → ℕ → Bool → Bool → Bool → Bool → Option Refusal
refuse_reason own respond_role tgid agent in_container identity_unknown scope_unproven =
    if not respond_role
    then some role
    else if agent
    then some agent_self
    else if not in_container
    then some not_container
    else if identity_unknown
    then some unknown_identity
    else if scope_unproven
    then some labels_unknown
    else if tgid == 0
    then some tgid_zero
    else if tgid == 1
    then some tgid_init
    else if leb max_tgid tgid || beyond_i32 tgid
    then some tgid_range
    else if tgid == own
    then some tgid_self
    else none

-- `none` is the refusal of a pid that cannot be signalled.
unfoldable pub pid_of : ℕ → Option ℕ
pid_of tgid = if not (beyond_i32 tgid) && (ltb 1 tgid && ltb tgid max_tgid) then some tgid else none
