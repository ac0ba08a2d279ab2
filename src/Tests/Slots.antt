-- ===== src/Tests/Slots.antt =====
-- The matcher in the kernel at concrete inputs.
use ferrum.Prelude.{
  zero, suc, ◌≡◌, refl, true, false, [], ◌∷◌, ◌++◌, replicate, all, ltb, ltb_iff, &&_iff, arith,
}
use ferrum.Text.{Str, str}
use ferrum.Datapath.Record.{comm_len}
use ferrum.Datapath.Slot.{
  KernelRule, ExecPath, as_u8, action_allow, action_kill, fits, kernel_rule_mask,
  kernel_rule_matches, kernel_verdict,
}
use ferrum.Datapath.Slot.Diff.{IsBytes}
use ferrum.Datapath.Slot.Reference.{at, IsSlot, IsPath, slot_applies}
use ferrum.Datapath.Slot.Mask.{kernel_rule_mask-slot_applies}
use ferrum.Datapath.Slot.Verdict.{IsStrongest, kernel_verdict-IsStrongest}

-- Kill what runs below /tmp in a container.
abbrev tmp_slot : KernelRule
tmp_slot = record {
  action = action_kill;
  flags = 19;
  comm_len = 0;
  prefix_len = 5;
  suffix_len = 0;
  comm = replicate 16 0;
  prefix = str "/tmp/" ++ replicate 59 0;
  suffix = replicate 64 0;
}

abbrev tmp_exec : ExecPath
tmp_exec = record { bytes = str "/tmp/x" ++ replicate 250 0; len = 6; flags = 1 }

abbrev shell : Str
shell = str "sh" ++ replicate 14 0

IsBytes-of : (s : Str) → all (λ b. ltb b 256) s ≡ true → IsBytes (at s)
IsBytes-of [] h i = omega arith
IsBytes-of (b ∷ s) h zero = (ltb_iff b 256).0 ((&&_iff (ltb b 256) (all (λ b. ltb b 256) s)).0 h).0
IsBytes-of (b ∷ s) h (suc i) = IsBytes-of s ((&&_iff (ltb b 256) (all (λ b. ltb b 256) s)).0 h).1 i

tmp_slot-IsSlot : IsSlot tmp_slot
tmp_slot-IsSlot = record {
  flags = omega arith;
  comm_len = omega arith;
  prefix_len = omega arith;
  suffix_len = omega arith;
  comm = IsBytes-of tmp_slot.comm refl;
  prefix = IsBytes-of tmp_slot.prefix refl;
  suffix = IsBytes-of tmp_slot.suffix refl;
}

tmp_exec-IsPath : IsPath tmp_exec
tmp_exec-IsPath = record {
  flags = omega arith;
  len = omega arith;
  bytes = IsBytes-of tmp_exec.bytes refl;
}

-- The guard on a length that is too long lets lengths through that wrap past the top bit.
corrupt_length : fits comm_len 200 ≡ 1
corrupt_length = refl

kernel_rule_mask-slot_applies_example :
    kernel_rule_mask tmp_slot shell true false true tmp_exec
    ≡ as_u8 (slot_applies tmp_slot shell true false true tmp_exec)
kernel_rule_mask-slot_applies_example =
    kernel_rule_mask-slot_applies tmp_slot shell true false true tmp_exec tmp_slot-IsSlot
      tmp_exec-IsPath (IsBytes-of shell refl)

kernel_verdict-IsStrongest_example :
    IsStrongest
      (λ r. kernel_rule_matches r shell true false true tmp_exec)
      action_allow
      (tmp_slot ∷ [])
      (kernel_verdict (tmp_slot ∷ []) shell true false true tmp_exec)
kernel_verdict-IsStrongest_example =
    kernel_verdict-IsStrongest (tmp_slot ∷ []) shell true false true tmp_exec
