-- ===== src/Ebpf/Krules/Shape.antt =====
-- crates/ferrum-ebpf/src/krules.rs: the fields of a slot, and of the path that it meets.
use ferrum.Prelude.{
  ℕ, ◌-◌, min, ◌≤◌, ◌<◌, ◌≡◌, refl, ap, ◌∙◌, Bool, true, false, ◌&&◌, ◌||◌, not, Option, none, some,
  [], ◌∷◌, length, take, leb, if◌then◌else◌, &&_iff, ltb, ltb_iff, bit_or, arith,
}
use ferrum.Text.{Str}
use ferrum.Datapath.Record.{comm_len, path_len}
use ferrum.Datapath.Slot.{
  kpath_len, krule_flag_used, krule_flag_container_only, krule_flag_not_agent_self,
  krule_flag_selected_only, krule_flag_path_prefix, krule_flag_path_suffix, exec_path_known,
  exec_path_truncated, ExecPath, KernelRule,
}
use ferrum.Datapath.Slot.Reference.{flag}
use ferrum.Datapath.Fill.{filled, empty, set_prefix, set_suffix, from_bytes}
use ferrum.Ebpf.Krules.{with_comm, with_prefix, with_suffix, one_slot}

-- What a slot or a predicate left out holds.
abbrev pub text_of : Option Str → Str
text_of none = []
text_of (some bytes) = bytes

abbrev pub given : Option Str → Bool
given none = false
given (some bytes) = true

abbrev pub with_bit : Bool → ℕ → ℕ → ℕ
with_bit true mask flags = bit_or flags mask
with_bit false mask flags = flags

-- A slot by its fields.
abbrev pub slot_of : ℕ → ℕ → Option Str → Option Str → Option Str → KernelRule
slot_of action flags comm prefix suffix = record {
  action = action;
  flags = flags;
  comm_len = length (text_of comm);
  prefix_len = length (text_of prefix);
  suffix_len = length (text_of suffix);
  comm = filled comm_len (text_of comm);
  prefix = filled kpath_len (text_of prefix);
  suffix = filled kpath_len (text_of suffix);
}

take-all : (s : Str) → take (length s) s ≡ s
take-all [] = refl
take-all (b ∷ s) = ap (◌∷◌ b) (take-all s)

whole :
    (n : ℕ) (s : Str)
    → length s ≤ n
    → (min (length s) n ≡ length s) × (take (min (length s) n) s ≡ s)
whole n s h =
    let e : min (length s) n ≡ length s = omega arith in (e, ap (λ k. take k s) e ∙ take-all s)

with_prefix-slot_of :
    (action flags : ℕ) (comm prefix : Option Str)
    → length (text_of prefix) ≤ kpath_len
    → with_prefix (slot_of action flags comm none none) prefix
      ≡ slot_of action (with_bit (given prefix) krule_flag_path_prefix flags) comm prefix none
unfolding set_prefix
with_prefix-slot_of action flags comm none h = refl
with_prefix-slot_of action flags comm (some bytes) h =
    let (len, all) = whole kpath_len bytes h in
    λ i. record (slot_of action flags comm none none) {
      flags = bit_or flags krule_flag_path_prefix;
      prefix_len = len i;
      prefix = filled kpath_len (all i);
    }

with_suffix-slot_of :
    (action flags : ℕ) (comm prefix suffix : Option Str)
    → length (text_of suffix) ≤ kpath_len
    → with_suffix (slot_of action flags comm prefix none) suffix
      ≡ slot_of action (with_bit (given suffix) krule_flag_path_suffix flags) comm prefix suffix
unfolding set_suffix
with_suffix-slot_of action flags comm prefix none h = refl
with_suffix-slot_of action flags comm prefix (some bytes) h =
    let (len, all) = whole kpath_len bytes h in
    λ i. record (slot_of action flags comm prefix none) {
      flags = bit_or flags krule_flag_path_suffix;
      suffix_len = len i;
      suffix = filled kpath_len (all i);
    }

with_comm-slot_of :
    (action flags : ℕ) (comm : Option Str)
    → with_comm (record empty { action = action; flags = flags }) comm
      ≡ slot_of action flags comm none none
with_comm-slot_of action flags none = refl
with_comm-slot_of action flags (some bytes) = refl

abbrev pub path_bits : Bool → Bool → ℕ → ℕ
path_bits prefix suffix flags =
    with_bit suffix krule_flag_path_suffix (with_bit prefix krule_flag_path_prefix flags)

-- A slot is made of the predicates that fit into it.
pub one_slot-slot_of :
    (action flags : ℕ) (comm prefix suffix : Option Str)
    → length (text_of prefix) ≤ kpath_len
    → length (text_of suffix) ≤ kpath_len
    → one_slot action flags comm prefix suffix
      ≡ slot_of action (path_bits (given prefix) (given suffix) flags) comm prefix suffix
unfolding one_slot
one_slot-slot_of action flags comm prefix suffix h k =
    ap (λ slot. with_suffix (with_prefix slot prefix) suffix) (with_comm-slot_of action flags comm)
    ∙ ap (λ slot. with_suffix slot suffix) (with_prefix-slot_of action flags comm prefix h)
    ∙ with_suffix-slot_of action (with_bit (given prefix) krule_flag_path_prefix flags) comm prefix
        suffix k

-- A path that fits the buffer.
abbrev pub path_of : Str → Bool → ExecPath
path_of path truncated = record {
  bytes = filled path_len path;
  len = length path;
  flags = bit_or exec_path_known (if truncated then exec_path_truncated else 0);
}

pub from_bytes-path_of :
    (path : Str) (truncated : Bool)
    → length path < path_len
    → from_bytes path truncated ≡ path_of path (truncated || leb (path_len - 1) (length path))
unfolding from_bytes
from_bytes-path_of path truncated h =
    let len : (if leb path_len (length path) then path_len - 1 else length path) ≡ length path =
      ground (arith, h) in
    λ i. record {
      bytes = filled path_len ((ap (λ k. take k path) len ∙ take-all path) i);
      len = len i;
      flags =
          bit_or exec_path_known
            (if truncated || leb (path_len - 1) (length path) then exec_path_truncated else 0);
    }

-- The flags of a slot.
abbrev pub flag_bits : Bool → Bool → Bool → ℕ
flag_bits selected_only container_only not_agent_self =
    bit_or
      (bit_or (bit_or krule_flag_used (if selected_only then krule_flag_selected_only else 0))
        (if container_only then krule_flag_container_only else 0))
      (if not_agent_self then krule_flag_not_agent_self else 0)

abbrev slot_bits : Bool → Bool → Bool → Bool → Bool → ℕ
slot_bits so co na hp hs = path_bits hp hs (flag_bits so co na)

abbrev same : Bool → Bool → Bool
same true b = b
same false b = not b

same-≡ : (a b : Bool) → same a b ≡ true → a ≡ b
same-≡ true b h = ground (arith, h)
same-≡ false b h = ground (arith, h)

abbrev both : (Bool → Bool) → Bool
both test = test true && test false

both-holds : (test : Bool → Bool) (b : Bool) → both test ≡ true → test b ≡ true
both-holds test true h = ((&&_iff (test true) (test false)).0 h).0
both-holds test false h = ((&&_iff (test true) (test false)).0 h).1

-- The flags read back what they were made of.
pub record IsBits (flags : ℕ) (so co na hp hs : Bool) : Type 0 where
  pub byte : flags < 256
  pub used : flag krule_flag_used flags ≡ true
  pub selected : flag krule_flag_selected_only flags ≡ so
  pub container : flag krule_flag_container_only flags ≡ co
  pub agent : flag krule_flag_not_agent_self flags ≡ na
  pub prefix : flag krule_flag_path_prefix flags ≡ hp
  pub suffix : flag krule_flag_path_suffix flags ≡ hs

bits_test : ℕ → Bool → Bool → Bool → Bool → Bool → Bool
bits_test f so co na hp hs =
    ltb f 256
    && (flag krule_flag_used f
        && (same (flag krule_flag_selected_only f) so
            && (same (flag krule_flag_container_only f) co
                && (same (flag krule_flag_not_agent_self f) na
                    && (same (flag krule_flag_path_prefix f) hp
                        && same (flag krule_flag_path_suffix f) hs)))))

bits_table :
    both (λ so. both (λ co.
      both (λ na. both (λ hp. both (λ hs. bits_test (slot_bits so co na hp hs) so co na hp hs)))))
    ≡ true
unfolding bits_test
bits_table = refl

all_five :
    (test : Bool → Bool → Bool → Bool → Bool → Bool) (a b c d e : Bool)
    → both (λ a. both (λ b. both (λ c. both (λ d. both (test a b c d))))) ≡ true
    → test a b c d e ≡ true
all_five test a b c d e h = both-holds (test a b c d) e (
    both-holds (λ d. both (test a b c d)) d
      (both-holds (λ c. both (λ d. both (test a b c d))) c
        (both-holds (λ b. both (λ c. both (λ d. both (test a b c d)))) b
          (both-holds (λ a. both (λ b. both (λ c. both (λ d. both (test a b c d))))) a h))))

seven :
    (a b c d e f g : Bool)
    → (a && (b && (c && (d && (e && (f && g)))))) ≡ true
    → (a ≡ true) × (b ≡ true) × (c ≡ true) × (d ≡ true) × (e ≡ true) × (f ≡ true) × (g ≡ true)
seven a b c d e f g h = ground (arith, h)

pub slot_bits-IsBits : (so co na hp hs : Bool) → IsBits (slot_bits so co na hp hs) so co na hp hs
unfolding bits_test
slot_bits-IsBits so co na hp hs =
    let f = slot_bits so co na hp hs in
    let t =
      all_five (λ so co na hp hs. bits_test (slot_bits so co na hp hs) so co na hp hs) so co na hp
        hs bits_table in
    let (byte, used, s, c, n, p, x) =
      seven (ltb f 256) (flag krule_flag_used f) (same (flag krule_flag_selected_only f) so)
        (same (flag krule_flag_container_only f) co) (same (flag krule_flag_not_agent_self f) na)
        (same (flag krule_flag_path_prefix f) hp) (same (flag krule_flag_path_suffix f) hs) t in
    record {
      byte = (ltb_iff f 256).0 byte;
      used = used;
      selected = same-≡ _ so s;
      container = same-≡ _ co c;
      agent = same-≡ _ na n;
      prefix = same-≡ _ hp p;
      suffix = same-≡ _ hs x;
    }

-- The flags of a path say that it is known, and whether it was cut.
pub path_of-flags :
    (t : Bool)
    → (flag exec_path_known (bit_or exec_path_known (if t then exec_path_truncated else 0)) ≡ true)
      × (flag exec_path_truncated (bit_or exec_path_known (if t then exec_path_truncated else 0))
          ≡ t)
      × (bit_or exec_path_known (if t then exec_path_truncated else 0) < 256)
path_of-flags true = (refl, refl, omega arith)
path_of-flags false = (refl, refl, omega arith)
