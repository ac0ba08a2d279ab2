-- ===== src/Tests/Datapath.antt =====
-- Ring records and the prefilter at concrete inputs.
use ferrum.Prelude.{
  ℕ, ◌≤◌, ◌+◌, ◌≡◌, refl, ◌↔◌, inl, true, false, none, some, [], ◌∷◌, ◌++◌, replicate, length,
  arith,
}
use ferrum.Text.{
  Str, str, str_eq, is_utf8, starts_with, ends_with, trim, skip, space_front, space_back, contains,
}
use ferrum.Error.{Message, ok, err, integrity}
use ferrum.Ids.{is_datapath_syscall}
use ferrum.Ebpf.Spec.{allow, Rule}
use ferrum.Ebpf.Reader.{from_le_bytes}
use ferrum.Compiler.Writer.{to_le_bytes}
use ferrum.Datapath.Record.{
  Event, datapath_abi, path_len, in_container, agent_self, flagged_truncated,
}
use ferrum.Ebpf.Eval.{
  SyscallEvent, RuleMatch, rule_matches, matched_action_with, prefix_step, suffix_step, suffix_hit,
  flag_step,
}
use ferrum.Ebpf.Event.{
  SyscallArch, event_wire_len, abi_of, read_fields, decode_event, abi_stamp_mismatch, encode_event,
  path_bytes, utf8_head, nul_trimmed_str, path_truncated, syscall_name, syscall_event,
}
use ferrum.Ebpf.Event.RoundTrip.{IsRecord, decode_event-encode_event, decode_event-refusal}
use ferrum.Ebpf.Event.Shape.{IsCopyOf, syscall_event-path}
use ferrum.Ebpf.Prefilter.{
  prefilter_image, observes, position, syscall_index, set, set_trimmed, set_each, mask_upto,
  all_mask, widen_for_rule, widen,
}
use ferrum.Ebpf.Prefilter.Sound.{passes, prefilter_image-drops}
use ferrum.Tests.Samples

abbrev opened : Event
opened = record {
  cgroup_id = 70000;
  pid = 12;
  tgid = 11;
  syscall_nr = 257;
  action = 2;
  flags = 1;
  pad = datapath_abi;
  comm = str "sh" ++ replicate 14 0;
  path = str "/etc/x" ++ replicate 250 0;
}

events : Unit {0}
unfolding in_container agent_self flagged_truncated from_le_bytes to_le_bytes abi_of read_fields
    decode_event abi_stamp_mismatch encode_event path_bytes utf8_head nul_trimmed_str path_truncated
    syscall_name syscall_event
events = tt

matcher : Unit {0}
unfolding rule_matches prefix_step suffix_step suffix_hit flag_step starts_with ends_with str_eq
matcher = tt

seen : syscall_event opened SyscallArch.x86_64 ≡ record {
  syscall = str "openat";
  comm = str "sh";
  path = str "/etc/x";
  in_container = true;
  agent_self = false;
  path_truncated = false;
}
unfolding events
seen = refl

-- A byte that is not UTF-8 hides the end of a path, with no flag: a suffix rule does not fire.
abbrev hidden : Event
hidden = record opened { path = str "/tmp/" ++ ((0xff ∷ str "/docker.sock") ++ replicate 238 0) }

abbrev socket_rule : Rule
socket_rule = record Samples.kill_rule {
  syscalls = [];
  path_prefix = [];
  path_suffix = str "docker.sock" ∷ [];
}

hidden_suffix :
    rule_matches socket_rule (syscall_event hidden SyscallArch.x86_64) ≡ RuleMatch.no_match
unfolding events matcher
hidden_suffix = refl

opened-IsRecord : IsRecord opened
opened-IsRecord = record {
  cgroup_fits = omega arith;
  pid_fits = omega arith;
  tgid_fits = omega arith;
  nr_fits = omega arith;
  stamped = refl;
  comm_full = refl;
  path_full = refl;
}

decode_event-encode_event_example : decode_event (encode_event opened) ≡ ok opened
decode_event-encode_event_example = decode_event-encode_event opened opened-IsRecord

-- A record of the right length with another stamp.
abbrev foreign : Str
foreign = replicate 296 0

decode_event-refusal_example :
    ((decode_event foreign ≡ ok (read_fields foreign))
      ↔ ((length foreign ≡ event_wire_len) × (abi_stamp_mismatch foreign ≡ none)))
    × ((abi : ℕ)
        → (abi_stamp_mismatch foreign ≡ some abi)
          ↔ (decode_event foreign ≡ err (integrity (Message.record_abi abi))))
decode_event-refusal_example = decode_event-refusal foreign

copied : IsCopyOf (str "/etc/x") opened.path
copied = record {
  no_nul = (refl, (refl, (refl, (refl, (refl, (refl, tt))))));
  copied = inl (replicate 249 0, omega arith, refl);
}

syscall_event-path_example :
    let ev = syscall_event opened SyscallArch.x86_64 in
    ((tail : Str) × (str "/etc/x" ≡ ev.path ++ tail))
    × (ev.path_truncated ≡ false → is_utf8 (str "/etc/x") ≡ true → ev.path ≡ str "/etc/x")
    × (path_len ≤ length (str "/etc/x") + 1 → ev.path_truncated ≡ true)
syscall_event-path_example = syscall_event-path opened SyscallArch.x86_64 (str "/etc/x") copied

-- A load of a module, which no rule of the sample program names.
abbrev module_load : SyscallEvent
module_load = record Samples.bpf_call { syscall = str "init_module"; path = [] }

hooked : is_datapath_syscall module_load.syscall ≡ true
unfolding is_datapath_syscall contains str_eq
hooked = refl

dropped : passes (prefilter_image Samples.program) module_load ≡ false
unfolding prefilter_image observes position syscall_index set set_trimmed set_each mask_upto
    all_mask widen_for_rule widen str_eq trim skip space_front space_back
dropped = refl

prefilter_image-drops_example :
    ((matched_action_with Samples.program module_load false).action ≡ allow)
    × ((matched_action_with Samples.program module_load false).rule_id ≡ none)
prefilter_image-drops_example =
    prefilter_image-drops Samples.program module_load false hooked (λ bare. (refl, refl)) dropped
