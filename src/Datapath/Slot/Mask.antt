-- ===== src/Datapath/Slot/Mask.antt =====
-- crates/ferrum-ebpf-progs/src/lib.rs: the branch-free mask against the tests with branches.
use ferrum.Prelude.{
  ℕ, ◌/◌, ◌%◌, ◌^◌, ◌<◌, ◌≡◌, refl, ◌∙◌, min, Bool, true, ◌&&◌, ◌||◌, not, [], ◌∷◌, ◌==◌, leb,
  ==_iff, bit_and, bit_or, bit_xor, arith,
}
use ferrum.Prelude.Bits.{table, table-holds}
use ferrum.Text.{Str}
use ferrum.Datapath.Record.{comm_len}
use ferrum.Datapath.Slot.{
  kpath_len, krule_flag_used, krule_flag_container_only, krule_flag_not_agent_self,
  krule_flag_selected_only, krule_flag_path_prefix, krule_flag_path_suffix, exec_path_known,
  exec_path_truncated, ExecPath, KernelRule, as_u8, nonzero, sub_u16, tail_at, prefix_diff,
  suffix_diff, comm_diff, prefix_hit, suffix_hit, and_all, kernel_rule_mask,
}
use ferrum.Datapath.Slot.Diff.{
  agree, IsBytes, nonzero_lem, fits-comm_len, fits-kpath_len, and-as_u8, or-as_u8, not-as_u8,
  equal-agree,
}
use ferrum.Datapath.Slot.Reference.{at, flag, IsSlot, IsPath, starts, ends, slot_applies}

prefix_hit-starts :
    (rule : KernelRule) (path : ExecPath)
    → IsSlot rule
    → IsPath path
    → prefix_hit rule path ≡ as_u8 (starts rule path)
unfolding prefix_hit prefix_diff
prefix_hit-starts rule path s p =
    rw
      (equal-agree (at rule.prefix) (at path.bytes) (min rule.prefix_len kpath_len) s.prefix
        p.bytes)
      (rw (nonzero_lem rule.prefix_len (omega (arith, s.prefix_len))) (
        rw (fits-kpath_len rule.prefix_len s.prefix_len) (
          rw
            (and-as_u8 (agree (at rule.prefix) (at path.bytes) (min rule.prefix_len kpath_len) 0)
              (not (rule.prefix_len == 0)))
            (and-as_u8 _ (leb rule.prefix_len kpath_len)))))

long_test : ℕ → ℕ → Bool
long_test len suffix_len =
    bit_xor (bit_and ((sub_u16 len suffix_len / 2 ^ 15) % 256) 1) 1 == as_u8 (leb suffix_len len)

long_table : table 256 (λ len. table 256 (long_test len)) ≡ true
unfolding long_test
long_table = refl

long_enough :
    (len suffix_len : ℕ)
    → len < 256
    → suffix_len < 256
    → bit_xor (bit_and ((sub_u16 len suffix_len / 2 ^ 15) % 256) 1) 1 ≡ as_u8 (leb suffix_len len)
unfolding long_test
long_enough len suffix_len h k =
    (==_iff (bit_xor (bit_and ((sub_u16 len suffix_len / 2 ^ 15) % 256) 1) 1)
        (as_u8 (leb suffix_len len))).0
      (table-holds 256 (long_test len) suffix_len
        (table-holds 256 (λ len. table 256 (long_test len)) len long_table h) k)

suffix_hit-ends :
    (rule : KernelRule) (path : ExecPath)
    → IsSlot rule
    → IsPath path
    → suffix_hit rule path ≡ as_u8 (ends rule path)
unfolding suffix_hit suffix_diff
suffix_hit-ends rule path s p =
    let tail : ℕ → ℕ = λ i. at path.bytes (tail_at (sub_u16 path.len rule.suffix_len) i) in
    let same = agree (at rule.suffix) tail (min rule.suffix_len kpath_len) 0 in
    rw (equal-agree (at rule.suffix) tail (min rule.suffix_len kpath_len) s.suffix (λ i. p.bytes _))
      (rw (nonzero_lem rule.suffix_len (omega (arith, s.suffix_len))) (
        rw (long_enough path.len rule.suffix_len p.len (omega (arith, s.suffix_len))) (
          rw (fits-kpath_len rule.suffix_len s.suffix_len) (
            rw (and-as_u8 same (not (rule.suffix_len == 0))) (
              rw (and-as_u8 (same && not (rule.suffix_len == 0)) (leb rule.suffix_len path.len))
                (and-as_u8 _ (leb rule.suffix_len kpath_len)))))))

-- The single bits of a byte, shifted down.
bits_test : ℕ → Bool
bits_test x =
    (bit_and x 1 == as_u8 (flag 1 x))
    && ((bit_and x 2 / 2 ^ 1 == as_u8 (flag 2 x))
        && ((bit_and x 4 / 2 ^ 2 == as_u8 (flag 4 x))
            && ((bit_and x 8 / 2 ^ 3 == as_u8 (flag 8 x))
                && ((bit_and x 16 / 2 ^ 4 == as_u8 (flag 16 x))
                    && ((bit_and x 32 / 2 ^ 5 == as_u8 (flag 32 x))
                        && ((nonzero (bit_or (x % 256) (x / 2 ^ 8 % 256))
                            == as_u8 (not (x == 0)))))))))

bits_table : table 256 bits_test ≡ true
unfolding bits_test nonzero
bits_table = refl

record Bits (x : ℕ) : Type 0 where
  bit0 : bit_and x 1 ≡ as_u8 (flag 1 x)
  bit1 : bit_and x 2 / 2 ^ 1 ≡ as_u8 (flag 2 x)
  bit2 : bit_and x 4 / 2 ^ 2 ≡ as_u8 (flag 4 x)
  bit3 : bit_and x 8 / 2 ^ 3 ≡ as_u8 (flag 8 x)
  bit4 : bit_and x 16 / 2 ^ 4 ≡ as_u8 (flag 16 x)
  bit5 : bit_and x 32 / 2 ^ 5 ≡ as_u8 (flag 32 x)
  some_byte : nonzero (bit_or (x % 256) (x / 2 ^ 8 % 256)) ≡ as_u8 (not (x == 0))

all_seven :
    (a b c d e f g : Bool)
    → (a && (b && (c && (d && (e && (f && g)))))) ≡ true
    → (a ≡ true) × (b ≡ true) × (c ≡ true) × (d ≡ true) × (e ≡ true) × (f ≡ true) × (g ≡ true)
all_seven a b c d e f g h = ground (arith, h)

bits : (x : ℕ) → x < 256 → Bits x
unfolding bits_test
bits x h =
    let (b0, b1, b2, b3, b4, b5, byte) =
      all_seven (bit_and x 1 == as_u8 (flag 1 x)) (bit_and x 2 / 2 ^ 1 == as_u8 (flag 2 x))
        (bit_and x 4 / 2 ^ 2 == as_u8 (flag 4 x)) (bit_and x 8 / 2 ^ 3 == as_u8 (flag 8 x))
        (bit_and x 16 / 2 ^ 4 == as_u8 (flag 16 x)) (bit_and x 32 / 2 ^ 5 == as_u8 (flag 32 x))
        (nonzero (bit_or (x % 256) (x / 2 ^ 8 % 256)) == as_u8 (not (x == 0)))
        (table-holds 256 bits_test x bits_table h) in
    record {
      bit0 = (==_iff (bit_and x 1) (as_u8 (flag 1 x))).0 b0;
      bit1 = (==_iff (bit_and x 2 / 2 ^ 1) (as_u8 (flag 2 x))).0 b1;
      bit2 = (==_iff (bit_and x 4 / 2 ^ 2) (as_u8 (flag 4 x))).0 b2;
      bit3 = (==_iff (bit_and x 8 / 2 ^ 3) (as_u8 (flag 8 x))).0 b3;
      bit4 = (==_iff (bit_and x 16 / 2 ^ 4) (as_u8 (flag 16 x))).0 b4;
      bit5 = (==_iff (bit_and x 32 / 2 ^ 5) (as_u8 (flag 32 x))).0 b5;
      some_byte =
          (==_iff (nonzero (bit_or (x % 256) (x / 2 ^ 8 % 256))) (as_u8 (not (x == 0)))).0 byte;
    }

-- The arithmetic of the last lines of the mask, on bits.
combine :
    (used ce nc hp ph un hs sh tr kn cl na ag co ic so se : Bool)
    → and_all
        (bit_or (as_u8 ce) (bit_xor (as_u8 nc) 1)
          ∷ bit_or
              (bit_or (bit_xor (as_u8 hp) 1) (as_u8 ph))
              (bit_and (as_u8 tr) (bit_xor (as_u8 un) 1))
          ∷ bit_or (bit_or (bit_xor (as_u8 hs) 1) (as_u8 sh)) (as_u8 tr)
          ∷ bit_xor (bit_and (bit_or (as_u8 hp) (as_u8 hs)) (bit_xor (as_u8 kn) 1)) 1
          ∷ as_u8 cl
          ∷ bit_xor (bit_and (as_u8 na) (as_u8 ag)) 1
          ∷ bit_xor (bit_and (as_u8 co) (bit_xor (as_u8 ic) 1)) 1
          ∷ bit_xor (bit_and (as_u8 so) (bit_xor (as_u8 se) 1)) 1
          ∷ [])
        (as_u8 used)
      ≡ as_u8 (
          (((((((used && (ce || not nc)) && ((not hp || ph) || (tr && not un)))
                    && ((not hs || sh) || tr))
                  && not ((hp || hs) && not kn))
                && cl)
              && not (na && ag))
            && not (co && not ic))
          && not (so && not se))
combine used ce nc hp ph un hs sh tr kn cl na ag co ic so se = simp (and-as_u8, or-as_u8, not-as_u8)

-- Of a slot, a path and a name that hold bytes, with flags that are bytes, the branch-free mask is
-- 1 exactly where the slot applies, a slot that is too long for its buffers to none, and 0
-- elsewhere. The lengths of the slot are below those from which the test of a length that is too
-- long wraps around: 145 of the `comm`, 193 of the two patterns.
pub kernel_rule_mask-slot_applies :
    (rule : KernelRule) (comm : Str) (in_container agent_self selected : Bool) (path : ExecPath)
    → IsSlot rule
    → IsPath path
    → IsBytes (at comm)
    → kernel_rule_mask rule comm in_container agent_self selected path
      ≡ as_u8 (slot_applies rule comm in_container agent_self selected path)
unfolding kernel_rule_mask comm_diff
kernel_rule_mask-slot_applies rule comm in_container agent_self selected path s p c =
    let f = bits rule.flags s.flags in
    let g = bits path.flags p.flags in
    let l = bits path.len p.len in
    let ce = equal-agree (at rule.comm) (at comm) comm_len s.comm c in
    let nc = nonzero_lem rule.comm_len (omega (arith, s.comm_len)) in
    let cl = fits-comm_len rule.comm_len s.comm_len in
    let ph = prefix_hit-starts rule path s p in
    let sh = suffix_hit-ends rule path s p in
    (λ i.
      and_all
        (bit_or (ce i) (bit_xor (nc i) 1)
          ∷ bit_or (bit_or (bit_xor (f.bit4 i) 1) (ph i))
              (bit_and (g.bit1 i) (bit_xor (l.some_byte i) 1))
          ∷ bit_or (bit_or (bit_xor (f.bit5 i) 1) (sh i)) (g.bit1 i)
          ∷ bit_xor (bit_and (bit_or (f.bit4 i) (f.bit5 i)) (bit_xor (g.bit0 i) 1)) 1
          ∷ cl i
          ∷ bit_xor (bit_and (f.bit2 i) (as_u8 agent_self)) 1
          ∷ bit_xor (bit_and (f.bit1 i) (bit_xor (as_u8 in_container) 1)) 1
          ∷ bit_xor (bit_and (f.bit3 i) (bit_xor (as_u8 selected) 1)) 1
          ∷ [])
        (f.bit0 i))
    ∙ combine (flag krule_flag_used rule.flags) (agree (at rule.comm) (at comm) comm_len 0)
        (not (rule.comm_len == 0)) (flag krule_flag_path_prefix rule.flags) (starts rule path)
        (not (path.len == 0)) (flag krule_flag_path_suffix rule.flags) (ends rule path)
        (flag exec_path_truncated path.flags) (flag exec_path_known path.flags)
        (leb rule.comm_len comm_len) (flag krule_flag_not_agent_self rule.flags) agent_self
        (flag krule_flag_container_only rule.flags) in_container
        (flag krule_flag_selected_only rule.flags) selected
