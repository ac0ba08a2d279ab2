-- ===== src/Tests/Compile.antt =====
-- The compiler and the loader on the sample policy.
use ferrum.Prelude.{◌<◌, ◌≡◌, ◌↔◌, refl, true, [], ◌∷◌, All, length, arith}
use ferrum.Text.{Str, str, is_utf8, contains, skip, space_back, space_front, str_eq, str_lt, trim}
use ferrum.Error.{Message, ok, err, compile}
use ferrum.Ebpf.Reader.{
  expect_magic, u32, u8, bool, i32, u16, repeat, string, str_list, finish, take, from_le_bytes,
}
use ferrum.Ids.{
  first_over_limit, is_datapath_syscall, unobservable_comm, unobservable_path_pattern,
  uncovered_equivalent_syscall,
}
use ferrum.Compiler.Writer.{
  put_magic, put_u8, to_le_bytes, put_u16, put_u32, put_i32, put_bool, put_str, put_each,
  put_str_list,
}
use ferrum.Labels.{insert}
use ferrum.Ebpf.Spec.{EbpfSpec, mode_from_u8, action_from_u8}
use ferrum.Ebpf.Decode.{
  DeadRules, parse_febp_with, parse_febp, decode_spec, check_abi, gate_spec, decode_selector,
  decode_label_selector, decode_labels, decode_requirement, decode_rule, trim_syscall,
  reject_kill_all, is_kill_all, apply_dead, drop_dead, dead_rule_reason, unhooked, comm_gap,
  path_gap,
}
use ferrum.Ebpf.Decode.Gates.{parse_febp-drop}
use ferrum.Ebpf.Decode.Observed.{IsObserved}
use ferrum.Ebpf.Decode.Spared.{IsSafe}
use ferrum.Ebpf.Decode.Loaded.{parse_febp-IsSafe, Sifted, parse_febp_with-drop}
use ferrum.Compiler.Encode.{
  encode_ebpf, put_label, put_requirement, encode_label_selector, encode_selector, encode_rule,
  put_header,
}
use ferrum.Compiler.Carries.{IsText, IsTexts}
use ferrum.Compiler.Meaning.{spec_of, IsSelector, IsRule, IsEncodable}
use ferrum.Compiler.RoundTrip.{encode_ebpf-decode}
use ferrum.Policy.Runtime.{
  validate_runtime, validate_rule_action, validate_rule_syscalls, syscalls_observed,
  validate_rule_predicates, is_kill_all_rule, validate_rule_body, validate_rules,
}
use ferrum.Policy.Loads.{validate_runtime-parse_febp}
use ferrum.Tests.Samples

-- `audit_open` alone loads on the restore path where `kill_tmp` names a syscall without a hook.
abbrev kept : EbpfSpec
kept = record Samples.program { rules = Samples.audit_rule ∷ [] }

abbrev reason : Message
reason = Message.unhooked_syscall (str "k") (str "ptrace")

loader : Unit {0}
unfolding insert expect_magic u32 u8 bool i32 u16 repeat string str_list finish take from_le_bytes
    mode_from_u8 action_from_u8 check_abi decode_spec gate_spec decode_selector
    decode_label_selector decode_labels decode_requirement decode_rule trim_syscall reject_kill_all
    is_kill_all apply_dead drop_dead dead_rule_reason unhooked comm_gap path_gap parse_febp_with
    parse_febp first_over_limit is_datapath_syscall unobservable_comm unobservable_path_pattern
    uncovered_equivalent_syscall contains is_utf8 skip space_back space_front str_eq str_lt trim
loader = tt

writer : Unit {0}
unfolding put_magic put_u8 to_le_bytes put_u16 put_u32 put_i32 put_bool put_str put_each
    put_str_list put_label put_requirement encode_label_selector encode_selector encode_rule
    put_header encode_ebpf
writer = tt

validator : Unit {0}
unfolding validate_rule_action validate_rule_syscalls syscalls_observed validate_rule_predicates
    is_kill_all_rule validate_rule_body validate_rules validate_runtime first_over_limit
    is_datapath_syscall unobservable_comm unobservable_path_pattern uncovered_equivalent_syscall
    contains is_utf8 skip space_back space_front str_eq str_lt trim
validator = tt

written : encode_ebpf Samples.policy ≡ ok Samples.encoded
unfolding writer
written = refl

meaning : spec_of Samples.policy ≡ Samples.program
unfolding trim_syscall trim skip space_back space_front
meaning = refl

loads : parse_febp Samples.encoded ≡ ok Samples.program
unfolding loader
loads = refl

refused : parse_febp Samples.encoded_dead ≡ err (compile reason)
unfolding loader
refused = refl

restored : parse_febp_with Samples.encoded_dead DeadRules.drop ≡ ok (kept, reason ∷ [])
unfolding loader
restored = refl

valid : validate_runtime Samples.policy.runtime ≡ ok tt
unfolding validator
valid = refl

abbrev none_named : IsTexts []
none_named = record { count_fits = omega arith; texts = tt }

no_labels-IsSelector : IsSelector Samples.no_labels
no_labels-IsSelector = record {
  labels_fit = omega arith;
  labels_sorted = tt;
  keys = tt;
  values = tt;
  expressions_fit = omega arith;
  expressions = tt;
}

abbrev short : (s : Str) → length s < 256 → is_utf8 s ≡ true → IsText s
short s h u = record { fits = omega arith; utf8 = u }

kill_tmp-IsRule : IsRule Samples.kill_tmp
unfolding is_utf8
kill_tmp-IsRule = record {
  id = short (str "k") (omega arith) refl;
  syscalls = record {
    count_fits = omega arith;
    texts = (short (str "bpf") (omega arith) refl, tt);
  };
  comm_in = none_named;
  path_prefix = record {
    count_fits = omega arith;
    texts = (short (str "/tmp") (omega arith) refl, tt);
  };
  path_suffix = none_named;
}

open_names : All IsText Samples.audit_open.syscalls
unfolding is_utf8
open_names = (short (str "open") (omega arith) refl, (short (str "openat") (omega arith) refl, tt))

audit_open-IsRule : IsRule Samples.audit_open
unfolding is_utf8
audit_open-IsRule = record {
  id = short (str "a") (omega arith) refl;
  syscalls = record { count_fits = omega arith; texts = open_names };
  comm_in = record { count_fits = omega arith; texts = (short (str "sh") (omega arith) refl, tt) };
  path_prefix = none_named;
  path_suffix = none_named;
}

policy-IsEncodable : IsEncodable Samples.policy
unfolding is_utf8
policy-IsEncodable = record {
  priority = omega arith;
  selector = record {
    cluster = no_labels-IsSelector;
    namespace = record {
      labels_fit = omega arith;
      labels_sorted = (tt, tt);
      keys = (short (str "app") (omega arith) refl, tt);
      values = (short (str "web") (omega arith) refl, tt);
      expressions_fit = omega arith;
      expressions = tt;
    };
    workload = no_labels-IsSelector;
    service_account = no_labels-IsSelector;
    registries = none_named;
  };
  rules_fit = omega arith;
  rules = (kill_tmp-IsRule, (audit_open-IsRule, tt));
}

validate_runtime-parse_febp_example :
    (bytes : Str) × (encode_ebpf Samples.policy ≡ ok bytes)
    × (parse_febp bytes ≡ ok (spec_of Samples.policy))
validate_runtime-parse_febp_example =
    validate_runtime-parse_febp Samples.policy policy-IsEncodable valid

encode_ebpf-decode_example :
    (bytes : Str) × (encode_ebpf Samples.policy ≡ ok bytes)
    × (decode_spec bytes ≡ ok (spec_of Samples.policy, []))
encode_ebpf-decode_example = encode_ebpf-decode Samples.policy policy-IsEncodable

parse_febp-IsSafe_example : (parse_febp Samples.encoded ≡ ok Samples.program) ↔ (
    IsSafe Samples.program
    × All IsObserved Samples.program.rules
    × ((rest : Str) × (decode_spec Samples.encoded ≡ ok (Samples.program, rest))))
parse_febp-IsSafe_example = parse_febp-IsSafe Samples.encoded Samples.program

-- Its left side holds of the sample.
program-IsSafe : IsSafe Samples.program
program-IsSafe = ((parse_febp-IsSafe Samples.encoded Samples.program).0 loads).0

parse_febp_with-drop_example :
    (raw : EbpfSpec) × (rest : Str) × (decode_spec Samples.encoded_dead ≡ ok (raw, rest))
    × IsSafe raw
    × IsSafe kept
    × (kept ≡ record raw { rules = kept.rules })
    × Sifted raw.rules kept.rules (reason ∷ [])
parse_febp_with-drop_example = parse_febp_with-drop Samples.encoded_dead kept (reason ∷ []) restored

parse_febp-drop_example : parse_febp_with Samples.encoded DeadRules.drop ≡ ok (Samples.program, [])
parse_febp-drop_example = parse_febp-drop Samples.encoded Samples.program loads
