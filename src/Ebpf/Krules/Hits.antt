-- ===== src/Ebpf/Krules/Hits.antt =====
-- crates/ferrum-ebpf/src/krules.rs: the slots that hit come of rules that apply, and the other way
-- round.
use ferrum.Prelude.{
  ℕ, ◌≤◌, ◌≡◌, refl, sym, ap, ◌∙◌, subst, ◌⊎◌, inl, inr, Bool, true, false, ◌&&◌, ◌||◌, not, List,
  [], ◌∷◌, any, any-append, is_empty, All, ◌==◌, arith,
}
use ferrum.Text.{Str}
use ferrum.Datapath.Slot.{KernelRule, action_rank}
use ferrum.Ebpf.Spec.{Rule, as_u8, rank}
use ferrum.Ebpf.Eval.{SyscallEvent, names}
use ferrum.Ebpf.Eval.Best.{applies}
use ferrum.Ebpf.Krules.{ExecPathLayout, Attempt, fails, gives, flat_map, kernel_slots}
use ferrum.Ebpf.Krules.Agrees.{Caller, hook_matches}
use ferrum.Ebpf.Krules.Refuses.{IsText, IsExec, exec_event, kernel_slots-exec_event}
use ferrum.Ebpf.Krules.Sets.{slots_in, slots_of}
use ferrum.Ebpf.Krules.Actions.{kernel_slots-Acts, action_rank-as_u8, any-action, ranked, All-split}

opposite : (b : Bool) → b ≡ true → b ≡ false → ⊥
opposite b t f = cc

-- A rule that names an exec is about every exec that the hook sees.
abbrev pub NamesExec : Str → ExecPathLayout → Bool → Rule → Type 0
NamesExec syscall layout so rule =
    (names rule.syscalls syscall ≡ true) ⊎ (slots_of layout so rule ≡ [])

-- A rule that became slots, applies and is about the caller is in the verdict.
abbrev pub Prevented : ExecPathLayout → Bool → SyscallEvent → Caller → ℕ → Rule → Type 0
Prevented layout so event caller v rule =
    is_empty (slots_of layout so rule) ≡ false
    → (applies event rule && not (so && not caller.selected)) ≡ true
    → rank rule.action ≤ action_rank v

module _ (layout : ExecPathLayout) (so : Bool) (syscall comm path : Str) (truncated : Bool)
    (caller : Caller) (exec : IsExec comm path) where
  abbrev hits : KernelRule → Bool
  hits slot = hook_matches slot comm caller path truncated

  abbrev event : SyscallEvent
  event = exec_event syscall comm caller path truncated

  -- The slots of a rule that hit with an action come of a rule that applies with that action.
  hit-applies :
      (rule : Rule) (v : ℕ)
      → IsText rule
      → NamesExec syscall layout so rule
      → any (λ r. hits r && r.action == v) (slots_of layout so rule) ≡ true
      → (applies event rule && rank rule.action == action_rank v) ≡ true
  unfolding slots_of
  hit-applies rule v text (inr none_left) e =
      absurd (opposite _ e (ap (any (λ r. hits r && r.action == v)) none_left))
  hit-applies rule v text (inl named) e = read (kernel_slots rule so layout) refl e
    where
      both_true : (a k : Bool) (m n : ℕ) → (a && k) ≡ true → m ≡ n → (a && m == n) ≡ true
      both_true a k m n h e = ground (arith, h, e)

      read :
          (a : Attempt (List KernelRule))
          → kernel_slots rule so layout ≡ a
          → any (λ r. hits r && r.action == v) (slots_in a) ≡ true
          → (applies event rule && rank rule.action == action_rank v) ≡ true
      read (fails why) f e = cc
      read (gives slots) f e =
          let (hit, same) =
            any-action hits v (as_u8 rule.action) slots
              (kernel_slots-Acts rule so layout slots f text) e in
          both_true (applies event rule) (not (so && not caller.selected)) (rank rule.action)
            (action_rank v)
            (sym (
                kernel_slots-exec_event rule so layout slots syscall comm path truncated caller f
                  text exec named)
              ∙ hit)
            (sym (action_rank-as_u8 rule.action) ∙ ap action_rank same)

  pub hits-apply :
      (rules : List Rule) (v : ℕ)
      → All IsText rules
      → All (NamesExec syscall layout so) rules
      → any (λ r. hits r && r.action == v) (flat_map (slots_of layout so) rules) ≡ true
      → any (λ q. applies event q && rank q.action == action_rank v) rules ≡ true
  hits-apply [] v text named e = cc
  hits-apply (q ∷ rules) v text named e =
      either (any (λ r. hits r && r.action == v) (slots_of layout so q))
        (any (λ r. hits r && r.action == v) (flat_map (slots_of layout so) rules)) _ _
        (hit-applies q v text.0 named.0) (hits-apply rules v text.1 named.1)
        (sym (
            any-append (λ r. hits r && r.action == v) (slots_of layout so q)
              (flat_map (slots_of layout so) rules))
          ∙ e)
    where
      either :
          (x y a b : Bool)
          → (x ≡ true → a ≡ true)
          → (y ≡ true → b ≡ true)
          → (x || y) ≡ true
          → (a || b) ≡ true
      either true y a b f g e = ground (arith, f refl)
      either false y a b f g e = ground (arith, g e)

  pub slots-Prevented :
      (rules : List Rule) (v : ℕ)
      → All IsText rules
      → All (NamesExec syscall layout so) rules
      → All
          (λ r. hits r ≡ true → action_rank r.action ≤ action_rank v)
          (flat_map (slots_of layout so) rules)
      → All (Prevented layout so event caller v) rules
  unfolding slots_of
  slots-Prevented [] v text named h = tt
  slots-Prevented (q ∷ rules) v text named h =
      let (here, later) =
        All-split (λ r. hits r ≡ true → action_rank r.action ≤ action_rank v) (slots_of layout so q)
          (flat_map (slots_of layout so) rules) h in
      (
        read (kernel_slots q so layout) refl named.0 here,
        slots-Prevented rules v text.1 named.1 later,
      )
    where
      read :
          (a : Attempt (List KernelRule))
          → kernel_slots q so layout ≡ a
          → (names q.syscalls syscall ≡ true) ⊎ (slots_in a ≡ [])
          → All (λ r. hits r ≡ true → action_rank r.action ≤ action_rank v) (slots_in a)
          → is_empty (slots_in a) ≡ false
          → (applies event q && not (so && not caller.selected)) ≡ true
          → rank q.action ≤ action_rank v
      read (fails why) f n h some_slot e = cc
      read (gives slots) f (inr empty) h some_slot e =
          absurd (opposite _ (ap is_empty empty) some_slot)
      read (gives slots) f (inl n) h some_slot e =
          subst (λ m. m ≤ action_rank v) (action_rank-as_u8 q.action)
            (ranked hits (as_u8 q.action) (action_rank v) slots
              (kernel_slots-Acts q so layout slots f text.0) h
              (kernel_slots-exec_event q so layout slots syscall comm path truncated caller f text.0
                  exec n
                ∙ e))
