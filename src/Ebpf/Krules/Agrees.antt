-- ===== src/Ebpf/Krules/Agrees.antt =====
-- crates/ferrum-ebpf/src/krules.rs: the slots of a rule against the evaluator's view of the rule.
use ferrum.Prelude.{
  ℕ, ◌-◌, ◌≤◌, ◌<◌, ◌≡◌, refl, ap, ◌∙◌, Bool, true, false, ◌&&◌, ◌||◌, not, Option, List, [], ◌∷◌,
  map, length, any, any-append, All, leb, ◌==◌, arith,
}
use ferrum.Text.{Str}
use ferrum.Datapath.Record.{comm_len, path_len}
use ferrum.Datapath.Slot.{kpath_len, as_u8, kernel_rule_matches, KernelRule}
use ferrum.Datapath.Slot.Mask.{kernel_rule_mask-slot_applies}
use ferrum.Datapath.Fill.{filled, from_bytes}
use ferrum.Ebpf.Krules.{one_slot, flat_map, all_slots}
use ferrum.Ebpf.Krules.Patterns.{IsPlain}
use ferrum.Ebpf.Krules.Shape.{
  text_of, given, slot_of, path_bits, flag_bits, one_slot-slot_of, path_of, from_bytes-path_of,
  slot_bits-IsBits, path_of-flags,
}
use ferrum.Ebpf.Krules.Applies.{
  IsHeld, comm_test, prefix_test, suffix_test, held_length, ≤→leb, filled-IsBytes,
  comm_ok-comm_test, starts_ok-prefix_test, ends_ok-suffix_test, slot_of-IsSlot, path_of-IsPath,
}

-- What the caller of the hook is: whether it is in a container, the agent itself, or selected.
pub record Caller : Type 0 where
  pub in_container : Bool
  pub agent_self : Bool
  pub selected : Bool

-- The tests on the caller that the flags of a slot ask for.
abbrev pub caller_test : Bool → Bool → Bool → Caller → Bool
caller_test so co na caller =
    (not (na && caller.agent_self) && not (co && not caller.in_container))
    && not (so && not caller.selected)

abbrev pub hook_matches : KernelRule → Str → Caller → Str → Bool → Bool
hook_matches slot comm caller path truncated =
    kernel_rule_matches slot (filled comm_len comm) caller.in_container caller.agent_self
      caller.selected (from_bytes path truncated)

as_u8-nonzero : (b : Bool) → not (as_u8 b == 0) ≡ b
as_u8-nonzero true = refl
as_u8-nonzero false = refl

kernel_rule_matches-slot_of :
    (action : ℕ) (so co na : Bool) (c p s : Option Str) (comm path : Str) (t : Bool)
    (caller : Caller)
    → IsHeld 15 c
    → IsHeld kpath_len p
    → IsHeld kpath_len s
    → IsPlain comm
    → length comm ≤ comm_len
    → All (λ b. b < 256) path
    → length path < path_len
    → kernel_rule_matches
        (slot_of action (path_bits (given p) (given s) (flag_bits so co na)) c p s)
        (filled comm_len comm)
        caller.in_container
        caller.agent_self
        caller.selected
        (path_of path t)
      ≡ (((comm_test comm c && prefix_test path t p) && suffix_test path t s)
          && caller_test so co na caller)
unfolding kernel_rule_matches
kernel_rule_matches-slot_of action so co na c p s comm path t caller hc hp hs plain le bytes short =
    let flags = path_bits (given p) (given s) (flag_bits so co na) in
    let b = slot_bits-IsBits so co na (given p) (given s) in
    let comms = comm_ok-comm_test action flags c p s comm hc plain le in
    let starts = starts_ok-prefix_test action flags so co na c p s path t hp b in
    let ends = ends_ok-suffix_test action flags so co na c p s path t hs short b in
    let held = ≤→leb comm_len (length (text_of c)) (omega (arith, held_length 15 c hc)) in
    ap (λ n. not (n == 0))
      (kernel_rule_mask-slot_applies (slot_of action flags c p s) (filled comm_len comm)
        caller.in_container caller.agent_self caller.selected (path_of path t)
        (slot_of-IsSlot action flags c p s b.byte hc hp hs) (path_of-IsPath path t bytes short)
        (filled-IsBytes comm_len comm plain))
    ∙ as_u8-nonzero _
    ∙ (λ i.
        (((((((b.used i && comms i) && starts i) && ends i)
                && not ((b.prefix i || b.suffix i) && not ((path_of-flags t).0 i)))
              && held i)
            && not (b.agent i && caller.agent_self))
          && not (b.container i && not caller.in_container))
        && not (b.selected i && not caller.selected))
    ∙ simplify (comm_test comm c) (prefix_test path t p) (suffix_test path t s) (given p) (given s)
        (not (na && caller.agent_self)) (not (co && not caller.in_container))
        (not (so && not caller.selected))
  where
    simplify :
        (a b c p s x y z : Bool)
        → ((((((((true && a) && b) && c) && not ((p || s) && not true)) && true) && x) && y) && z)
          ≡ (((a && b) && c) && ((x && y) && z))
    simplify true true true true s x y z = refl
    simplify true true true false true x y z = refl
    simplify true true true false false x y z = refl
    simplify true true false p s x y z = refl
    simplify true false c p s x y z = refl
    simplify false b c p s x y z = refl

-- Whether the evaluator is told that the path may be longer.
abbrev pub cut : Str → Bool → Bool
cut path truncated = truncated || leb (path_len - 1) (length path)

one_slot-matches :
    (action : ℕ) (so co na : Bool) (c p s : Option Str) (comm path : Str) (truncated : Bool)
    (caller : Caller)
    → IsHeld 15 c
    → IsHeld kpath_len p
    → IsHeld kpath_len s
    → IsPlain comm
    → length comm ≤ comm_len
    → All (λ b. b < 256) path
    → length path < path_len
    → hook_matches (one_slot action (flag_bits so co na) c p s) comm caller path truncated ≡ (
        ((comm_test comm c && prefix_test path (cut path truncated) p)
          && suffix_test path (cut path truncated) s)
        && caller_test so co na caller)
one_slot-matches action so co na c p s comm path truncated caller hc hp hs plain le bytes short =
    (λ i.
      kernel_rule_matches
        (one_slot-slot_of action (flag_bits so co na) c p s (held_length kpath_len p hp)
          (held_length kpath_len s hs) i)
        (filled comm_len comm) caller.in_container caller.agent_self caller.selected
        (from_bytes-path_of path truncated short i))
    ∙ kernel_rule_matches-slot_of action so co na c p s comm path (cut path truncated) caller hc hp
        hs plain le bytes short

-- A product of lists of tests is met where each list is.
spread_none : (b z : Bool) → false ≡ ((b && false) && z)
spread_none b z = ground arith

spread_some :
    (a r b z x xs : Bool)
    → a ≡ ((b && x) && z)
    → r ≡ ((b && xs) && z)
    → (a || r) ≡ ((b && (x || xs)) && z)
spread_some a r b z x xs e f = ground (arith, e, f)

module _ (hits : KernelRule → Bool) (before after : Bool) (h : Option Str → Bool)
    (P : Option Str → Type 0) where
  any-map :
      (slot : Option Str → KernelRule) (xs : List (Option Str))
      → ((x : Option Str) → P x → hits (slot x) ≡ ((before && h x) && after))
      → All P xs
      → any hits (map slot xs) ≡ ((before && any h xs) && after)
  any-map slot [] f ps = spread_none before after
  any-map slot (x ∷ xs) f ps =
      spread_some (hits (slot x)) (any hits (map slot xs)) before after (h x) (any h xs) (f x ps.0)
        (any-map slot xs f ps.1)

  any-flat_map :
      (slots : Option Str → List KernelRule) (xs : List (Option Str))
      → ((x : Option Str) → P x → any hits (slots x) ≡ ((before && h x) && after))
      → All P xs
      → any hits (flat_map slots xs) ≡ ((before && any h xs) && after)
  any-flat_map slots [] f ps = spread_none before after
  any-flat_map slots (x ∷ xs) f ps =
      any-append hits (slots x) (flat_map slots xs)
      ∙ spread_some (any hits (slots x)) (any hits (flat_map slots xs)) before after (h x)
          (any h xs) (f x ps.0) (any-flat_map slots xs f ps.1)

-- Some slot of a rule applies where some predicate of each kind is met, and the caller is one that
-- the rule is about.
pub any-all_slots :
    (action : ℕ) (so co na : Bool) (cs ps ss : List (Option Str)) (comm path : Str)
    (truncated : Bool) (caller : Caller)
    → All (IsHeld 15) cs
    → All (IsHeld kpath_len) ps
    → All (IsHeld kpath_len) ss
    → IsPlain comm
    → length comm ≤ comm_len
    → All (λ b. b < 256) path
    → length path < path_len
    → any
        (λ slot. hook_matches slot comm caller path truncated)
        (all_slots (one_slot action (flag_bits so co na)) cs ps ss)
      ≡ (((any (comm_test comm) cs && any (prefix_test path (cut path truncated)) ps)
            && any (suffix_test path (cut path truncated)) ss)
          && caller_test so co na caller)
unfolding all_slots
any-all_slots action so co na cs ps ss comm path truncated caller hcs hps hss plain le bytes short =
    let hits : KernelRule → Bool = λ slot. hook_matches slot comm caller path truncated in
    let f = comm_test comm in
    let g = prefix_test path (cut path truncated) in
    let h = suffix_test path (cut path truncated) in
    let k = caller_test so co na caller in
    let slot = one_slot action (flag_bits so co na) in
    any-flat_map hits true (any g ps && (any h ss && k)) f (IsHeld 15)
      (λ c. flat_map (λ p. map (slot c p) ss) ps) cs
      (λ c hc.
        any-flat_map hits (f c) (any h ss && k) g (IsHeld kpath_len) (λ p. map (slot c p) ss) ps
          (λ p hp.
            any-map hits (f c && g p) k h (IsHeld kpath_len) (slot c p) ss
              (λ s hs.
                one_slot-matches action so co na c p s comm path truncated caller hc hp hs plain le
                  bytes short)
              hss
            ∙ outwards (f c && g p) (any h ss) k)
          hps
        ∙ onwards (f c) (any g ps) (any h ss && k))
      hcs
    ∙ together (any f cs) (any g ps) (any h ss) k
  where
    outwards : (a b c : Bool) → ((a && b) && c) ≡ (a && (b && c))
    outwards a b c = ground arith

    onwards : (a b c : Bool) → ((a && b) && c) ≡ ((true && a) && (b && c))
    onwards a b c = ground arith

    together : (a b c d : Bool) → ((true && a) && (b && (c && d))) ≡ (((a && b) && c) && d)
    together a b c d = ground arith
