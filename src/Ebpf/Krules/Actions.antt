-- ===== src/Ebpf/Krules/Actions.antt =====
-- crates/ferrum-ebpf/src/krules.rs: the action of a slot is that of the rule it is made of.
use ferrum.Prelude.{
  ℕ, ◌≤◌, ◌≡◌, refl, sym, subst, inl, inr, Bool, true, false, ◌&&◌, ◌||◌, Option, none, some, List,
  [], ◌∷◌, ◌++◌, map, any, All, All-append, ◌==◌, if◌then◌else◌, Bool-cases, arith,
}
use ferrum.Text.{Str}
use ferrum.Datapath.Slot.{KernelRule, action_rank}
use ferrum.Datapath.Fill.{set_prefix, set_suffix}
use ferrum.Ebpf.Spec.{Action, Rule, as_u8, rank}
use ferrum.Ebpf.Eval.{SyscallEvent}
use ferrum.Ebpf.Eval.Best.{applies}
use ferrum.Ebpf.Eval.Order.{higher, rank_or, top_rank}
use ferrum.Ebpf.Krules.{ExecPathLayout, gives, flat_map, one_slot, all_slots, kernel_slots}
use ferrum.Ebpf.Krules.Shape.{flag_bits}
use ferrum.Ebpf.Krules.Checked.{choices}
use ferrum.Ebpf.Krules.Refuses.{IsText, kernel_slots-gives}

-- The action of a slot is that of its rule.
one_slot-action :
    (action flags : ℕ) (c p s : Option Str) → (one_slot action flags c p s).action ≡ action
unfolding one_slot set_prefix set_suffix
one_slot-action action flags none none none = refl
one_slot-action action flags none none (some s) = refl
one_slot-action action flags none (some p) none = refl
one_slot-action action flags none (some p) (some s) = refl
one_slot-action action flags (some c) none none = refl
one_slot-action action flags (some c) none (some s) = refl
one_slot-action action flags (some c) (some p) none = refl
one_slot-action action flags (some c) (some p) (some s) = refl

abbrev pub Acts : ℕ → List KernelRule → Type 0
Acts a slots = All (λ slot. slot.action ≡ a) slots

Acts-flat_map :
    (a : ℕ) (f : Option Str → List KernelRule) (xs : List (Option Str))
    → ((x : Option Str) → Acts a (f x))
    → Acts a (flat_map f xs)
Acts-flat_map a f [] h = tt
Acts-flat_map a f (x ∷ xs) h =
    All-append (λ slot. slot.action ≡ a) (f x) (flat_map f xs) (h x) (Acts-flat_map a f xs h)

Acts-map :
    (a : ℕ) (f : Option Str → KernelRule) (xs : List (Option Str))
    → ((x : Option Str) → (f x).action ≡ a)
    → Acts a (map f xs)
Acts-map a f [] h = tt
Acts-map a f (x ∷ xs) h = (h x, Acts-map a f xs h)

pub kernel_slots-Acts :
    (rule : Rule) (so : Bool) (layout : ExecPathLayout) (slots : List KernelRule)
    → kernel_slots rule so layout ≡ gives slots
    → IsText rule
    → Acts (as_u8 rule.action) slots
unfolding all_slots
kernel_slots-Acts rule so layout slots h text =
    let a = as_u8 rule.action in
    let flags = flag_bits so rule.container_only rule.not_agent_self in
    subst (Acts a) (sym (kernel_slots-gives rule so layout slots h text).0) (
      Acts-flat_map a _ (choices rule.comm_in) λ c.
        Acts-flat_map a _ (choices rule.path_prefix)
          λ p. Acts-map a _ (choices rule.path_suffix) λ s. one_slot-action a flags c p s)

pub action_rank-as_u8 : (a : Action) → action_rank (as_u8 a) ≡ rank a
unfolding action_rank
action_rank-as_u8 Action.allow = refl
action_rank-as_u8 Action.audit = refl
action_rank-as_u8 Action.deny = refl
action_rank-as_u8 Action.kill = refl
action_rank-as_u8 Action.isolate = refl

-- Of slots of one action, a hit with an action is a hit, and that action.
pub any-action :
    (hits : KernelRule → Bool) (v a : ℕ) (slots : List KernelRule)
    → Acts a slots
    → any (λ r. hits r && r.action == v) slots ≡ true
    → (any hits slots ≡ true) × (a ≡ v)
any-action hits v a [] h e = cc
any-action hits v a (slot ∷ slots) h e =
    join (hits slot) slot.action (any hits slots) (any (λ r. hits r && r.action == v) slots) h.0
      (any-action hits v a slots h.1) e
  where
    join :
        (x : Bool) (n : ℕ) (y z : Bool)
        → n ≡ a
        → (z ≡ true → (y ≡ true) × (a ≡ v))
        → (x && n == v || z) ≡ true
        → ((x || y) ≡ true) × (a ≡ v)
    join x n y true f g e = let (p, q) = g refl in (ground (arith, p), q)
    join x n y false f g e = ground (arith, e, f)

pub ranked :
    (hits : KernelRule → Bool) (a n : ℕ) (slots : List KernelRule)
    → Acts a slots
    → All (λ r. hits r ≡ true → action_rank r.action ≤ n) slots
    → any hits slots ≡ true
    → action_rank a ≤ n
ranked hits a n [] acts h e = cc
ranked hits a n (slot ∷ slots) acts h e = elim (Bool-cases (hits slot)) [
  | inl hit ↦ subst (λ b. action_rank b ≤ n) acts.0 (h.0 hit)
  | inr miss ↦ ranked hits a n slots acts.1 h.1 (rest (hits slot) (any hits slots) miss e)
]
  where
    rest : (x y : Bool) → x ≡ false → (x || y) ≡ true → y ≡ true
    rest x y f g = ground (arith, f, g)

pub All-split {ℓ κ} :
    {A : Type ℓ} (P : A → Type κ) (xs ys : List A) → All P (xs ++ ys) → All P xs × All P ys
All-split P [] ys h = (tt, h)
All-split P (x ∷ xs) ys h = let (a, b) = All-split P xs ys h.1 in ((h.0, a), b)

abbrev pub AtLeast : ℕ → Option ℕ → Type 0
AtLeast n none = ⊥
AtLeast n (some k) = n ≤ k

-- The top rank is at least that of each rule that applies.
pub top_rank-AtLeast :
    (event : SyscallEvent) (n : ℕ) (rules : List Rule)
    → any (λ q. applies event q && rank q.action == n) rules ≡ true
    → AtLeast n (top_rank event rules)
unfolding top_rank
top_rank-AtLeast event n [] e = cc
top_rank-AtLeast event n (q ∷ rules) e =
    join (applies event q) (rank q.action) (top_rank event rules)
      (any (λ q. applies event q && rank q.action == n) rules) (top_rank-AtLeast event n rules) e
  where
    join :
        (x : Bool) (m : ℕ) (t : Option ℕ) (y : Bool)
        → (y ≡ true → AtLeast n t)
        → (x && m == n || y) ≡ true
        → AtLeast n (higher (if x then some m else none) t)
    join true m none false f e = ground (arith, e)
    join false m none false f e = cc
    join x m none true f e = absurd (f refl)
    join true m (some k) true f e = omega (arith, f refl)
    join true m (some k) false f e = ground (arith, e)
    join false m (some k) true f e = f refl
    join false m (some k) false f e = cc

pub AtLeast-rank_or : (n d : ℕ) (t : Option ℕ) → AtLeast n t → n ≤ rank_or t d
AtLeast-rank_or n d none h = absurd h
AtLeast-rank_or n d (some k) h = h
