-- ===== src/Compiler/Encode.antt =====
-- crates/ferrum-compiler/src/encode.rs: `encode_ebpf`.
use ferrum.Prelude.{ℕ, Bool, [], length}
use ferrum.Text.{Str, str}
use ferrum.Error.{Message, Result, ok, ◌>>=◌}
use ferrum.Ids.{agent_abi}
use ferrum.Api.{
  PolicyMode, RuntimeAction, LabelSelectorRequirement, LabelSelector, PolicySelector, RuntimeRule,
  RuntimeSpec,
}
use ferrum.Compiler.Writer.{
  put_magic, put_u8, put_u16, put_u32, put_i32, put_bool, u16_from, put_str, put_each, put_str_list,
}

abbrev pub ebpf_magic : Str
ebpf_magic = str "FEBP"

-- The part of `Effects` that the runtime program is made of; `priority` is the bits of the `i32`.
pub record Effects : Type 0 where
  pub mode : PolicyMode
  pub priority : ℕ
  pub disabled : Bool
  pub selector : PolicySelector
  pub runtime : RuntimeSpec

abbrev pub mode_to_u8 : PolicyMode → ℕ
mode_to_u8 PolicyMode.observe = 0
mode_to_u8 PolicyMode.audit = 1
mode_to_u8 PolicyMode.enforce = 2

abbrev pub action_to_u8 : RuntimeAction → ℕ
action_to_u8 RuntimeAction.allow = 0
action_to_u8 RuntimeAction.audit = 1
action_to_u8 RuntimeAction.deny = 2
action_to_u8 RuntimeAction.kill = 3
action_to_u8 RuntimeAction.isolate = 4

unfoldable pub put_label : Str × Str → Str → Result Str
put_label kv w = put_str kv.0 w >>= λ w. put_str kv.1 w

unfoldable pub put_requirement : LabelSelectorRequirement → Str → Result Str
put_requirement expr w =
    put_str expr.key w >>= λ w. put_str expr.operator w >>= λ w. put_str_list expr.values w

unfoldable pub encode_label_selector : LabelSelector → Str → Result Str
encode_label_selector selector w =
    u16_from (length selector.match_labels) Message.long_labels >>= λ count.
    put_each put_label selector.match_labels (put_u16 count w) >>= λ w.
    u16_from (length selector.match_expressions) Message.long_expressions >>= λ expr_count.
    put_each put_requirement selector.match_expressions (put_u16 expr_count w)

unfoldable pub encode_selector : PolicySelector → Str → Result Str
encode_selector selector w = encode_label_selector selector.cluster_selector w >>= λ w.
    encode_label_selector selector.namespace_selector w >>= λ w.
    encode_label_selector selector.workload_selector w >>= λ w.
    encode_label_selector selector.service_account_selector w >>= λ w.
    put_str_list selector.image.registries_allow w >>= λ w.
    ok (put_bool selector.image.require_digest w)

unfoldable pub encode_rule : RuntimeRule → Str → Result Str
encode_rule rule w = put_str rule.id w >>= λ w. put_str_list rule.syscalls w >>= λ w.
    put_str_list rule.match_on.comm_in (put_u8 (action_to_u8 rule.action) w) >>= λ w.
    put_str_list rule.match_on.path_prefix (put_bool rule.match_on.container_only w) >>= λ w.
    put_str_list rule.match_on.path_suffix w >>= λ w. ok (put_bool rule.match_on.not_agent_self w)

-- What `encode_ebpf` writes in front of the selector.
unfoldable pub put_header : Effects → Str → Str
put_header fx w = put_u8 (action_to_u8 fx.runtime.default_action) (
    put_i32 fx.priority (
      put_bool fx.disabled
        (put_u8 (mode_to_u8 fx.mode) (put_u32 agent_abi (put_magic ebpf_magic w)))))

unfoldable pub encode_ebpf : Effects → Result Str
encode_ebpf fx = encode_selector fx.selector (put_header fx []) >>= λ w.
    u16_from (length fx.runtime.rules) Message.long_rules >>= λ count.
    put_each encode_rule fx.runtime.rules (put_u16 count w)
