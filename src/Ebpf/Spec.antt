-- ===== src/Ebpf/Spec.antt =====
-- crates/ferrum-ebpf/src/spec.rs: the program that an FEBP encodes.
use ferrum.Prelude.{ℕ, zero, suc, Bool, ◌&&◌, ◌||◌, not, List, is_empty}
use ferrum.Text.{Str}
use ferrum.Labels.{Labels}
use ferrum.Error.{Message, Result, ok, err, compile}

pub data Mode : Type 0 where
  observe audit enforce : Mode

pub data Action : Type 0 where
  allow audit deny kill isolate : Action

pub Action-discrete : Discrete Action
Action-discrete = hlevel

unfoldable pub mode_from_u8 : ℕ → Result Mode
mode_from_u8 zero = ok observe
mode_from_u8 (suc zero) = ok Mode.audit
mode_from_u8 (suc (suc zero)) = ok enforce
mode_from_u8 other = err (compile (Message.unknown_mode other))

abbrev pub mode_as_u8 : Mode → ℕ
mode_as_u8 observe = 0
mode_as_u8 Mode.audit = 1
mode_as_u8 enforce = 2

unfoldable pub action_from_u8 : ℕ → Result Action
action_from_u8 zero = ok allow
action_from_u8 (suc zero) = ok Action.audit
action_from_u8 (suc (suc zero)) = ok deny
action_from_u8 (suc (suc (suc zero))) = ok kill
action_from_u8 (suc (suc (suc (suc zero)))) = ok isolate
action_from_u8 other = err (compile (Message.unknown_action other))

abbrev pub as_u8 : Action → ℕ
as_u8 allow = 0
as_u8 Action.audit = 1
as_u8 deny = 2
as_u8 kill = 3
as_u8 isolate = 4

abbrev pub rank : Action → ℕ
rank allow = 0
rank Action.audit = 1
rank deny = 2
rank isolate = 3
rank kill = 4

pub record Rule : Type 0 where
  pub id : Str
  pub syscalls : List Str
  pub action : Action
  pub comm_in : List Str
  pub container_only : Bool
  pub path_prefix : List Str
  pub path_suffix : List Str
  pub not_agent_self : Bool

pub record LabelRequirement : Type 0 where
  pub key : Str
  pub operator : Str
  pub values : List Str

pub record LabelSelector : Type 0 where
  pub match_labels : Labels
  pub match_expressions : List LabelRequirement

pub record ImageSelector : Type 0 where
  pub registries_allow : List Str
  pub require_digest : Bool

pub record PolicySelector : Type 0 where
  pub cluster_selector : LabelSelector
  pub namespace_selector : LabelSelector
  pub workload_selector : LabelSelector
  pub service_account_selector : LabelSelector
  pub image : ImageSelector

-- `priority` is an `i32`, kept as its 32 bits.
pub record EbpfSpec : Type 0 where
  pub abi : ℕ
  pub mode : Mode
  pub disabled : Bool
  pub priority : ℕ
  pub default_action : Action
  pub selector : PolicySelector
  pub rules : List Rule

-- `LabelSelector::is_empty`.
abbrev pub selects_all : LabelSelector → Bool
selects_all s = is_empty s.match_labels && is_empty s.match_expressions

-- `PolicySelector::is_empty`.
unfoldable pub is_cluster_wide : PolicySelector → Bool
is_cluster_wide s =
    selects_all s.cluster_selector
    && selects_all s.namespace_selector
    && selects_all s.workload_selector
    && selects_all s.service_account_selector
    && is_empty s.image.registries_allow
    && not s.image.require_digest

unfoldable pub is_namespaced : PolicySelector → Bool
is_namespaced s =
    not (selects_all s.namespace_selector)
    || not (selects_all s.workload_selector)
    || not (selects_all s.service_account_selector)
