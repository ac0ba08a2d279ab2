-- ===== src/Ebpf/Decode/Observed.antt =====
-- crates/ferrum-ebpf/src/spec.rs: which rules the datapath can observe, told apart from the tests of
-- the loader, and that these tests tell the same.
use ferrum.Prelude.{
  ℕ, ◌≤◌, ◌≡◌, refl, ◌⊎◌, inl, inr, ◌↔◌, Bool, true, false, ◌||◌, Option, none, some, List, [], ◌∷◌,
  length, ltb, All, find_map, if◌then◌else◌, arith,
}
use mathlib.Core.Option
use ferrum.Text.{Str, str_eq, contains}
use ferrum.Text.Laws.{str_eq_iff}
use ferrum.Error.{Message}
use ferrum.Ids.{
  datapath_syscalls, is_datapath_syscall, first_over_limit, unobservable_comm,
  unobservable_path_pattern,
}
use ferrum.Ebpf.Spec.{Rule}
use ferrum.Ebpf.Decode.{or_else, unhooked, comm_gap, path_gap, dead_rule_reason}
use ferrum.Ebpf.Decode.Gates.{IsAlive}

abbrev pub IsOneOf : Str → List Str → Type 0
IsOneOf s [] = ⊥
IsOneOf s (x ∷ xs) = (x ≡ s) ⊎ IsOneOf s xs

-- Each predicate of the rule is one that the datapath can observe: it hooks every syscall named,
-- and no `comm` and no pattern is longer than what a record holds of a name and of a path.
pub record IsObserved (rule : Rule) : Type 0 where
  pub syscalls : All (λ s. IsOneOf s datapath_syscalls) rule.syscalls
  pub comms : All (λ c. length c ≤ 15) rule.comm_in
  pub prefixes : All (λ p. length p ≤ 255) rule.path_prefix
  pub suffixes : All (λ p. length p ≤ 255) rule.path_suffix

contains_iff : (xs : List Str) (s : Str) → (contains xs s ≡ true) ↔ IsOneOf s xs
unfolding contains
contains_iff [] s = ((λ h. cc), λ h. absurd h)
contains_iff (x ∷ xs) s = (
  (λ h. forth (str_eq x s) _ (str_eq_iff x s).0 (contains_iff xs s).0 h),
  (λ o. elim o [
    | inl e ↦ left (str_eq x s) _ ((str_eq_iff x s).1 e)
    | inr m ↦ right (str_eq x s) _ ((contains_iff xs s).1 m)
  ]),
)
  where
    forth : (a b : Bool) {P Q : Type 0} → (a ≡ true → P) → (b ≡ true → Q) → (a || b) ≡ true → P ⊎ Q
    forth true b f g h = inl (f refl)
    forth false b f g h = inr (g h)

    left : (a b : Bool) → a ≡ true → (a || b) ≡ true
    left a b e = ground (arith, e)

    right : (a b : Bool) → b ≡ true → (a || b) ≡ true
    right a b e = ground (arith, e)

unhooked_iff :
    (id : Str) (ss : List Str)
    → (find_map (unhooked id) ss ≡ none) ↔ All (λ s. IsOneOf s datapath_syscalls) ss
unfolding unhooked is_datapath_syscall
unhooked_iff id [] = ((λ h. tt), λ h. refl)
unhooked_iff id (s ∷ ss) = (
  (λ h.
      let (e, rest) = forth (contains datapath_syscalls s) _ _ h in
      ((contains_iff datapath_syscalls s).0 e, (unhooked_iff id ss).0 rest)),
  (λ a.
      back (contains datapath_syscalls s) _ _ ((contains_iff datapath_syscalls s).1 a.0)
        ((unhooked_iff id ss).1 a.1)),
)
  where
    forth :
        (b : Bool) (m : Message) (rest : Option Message)
        → elim (if b then none else some m) [ none ↦ rest | some y ↦ some y ] ≡ none
        → (b ≡ true) × (rest ≡ none)
    forth true m rest h = (refl, h)
    forth false m rest h = cc

    back :
        (b : Bool) (m : Message) (rest : Option Message)
        → b ≡ true
        → rest ≡ none
        → elim (if b then none else some m) [ none ↦ rest | some y ↦ some y ] ≡ none
    back true m rest e h = h
    back false m rest e h = cc

abbrev with_length : Str → Str × ℕ
with_length s = (s, length s)

first_over_limit_iff :
    (limit : ℕ) (ss : List Str)
    → (first_over_limit ss limit ≡ none) ↔ All (λ s. length s ≤ limit) ss
unfolding first_over_limit
first_over_limit_iff limit [] = ((λ h. tt), λ h. refl)
first_over_limit_iff limit (s ∷ ss) = (
  (λ h.
      let (e, rest) = forth (ltb limit (length s)) s _ h in
      (ground (arith, e), (first_over_limit_iff limit ss).0 rest)),
  (λ a.
      back (ltb limit (length s)) s _ (short limit (length s) a.0)
        ((first_over_limit_iff limit ss).1 a.1)),
)
  where
    short : (m n : ℕ) → n ≤ m → ltb m n ≡ false
    short m n h = ground (arith, h)

    forth :
        (b : Bool) (s : Str) (rest : Option Str)
        → Option.map with_length
            (elim (if b then some s else none) [ none ↦ rest | some y ↦ some y ])
          ≡ none
        → (b ≡ false) × (Option.map with_length rest ≡ none)
    forth true s rest h = cc
    forth false s rest h = (refl, h)

    back :
        (b : Bool) (s : Str) (rest : Option Str)
        → b ≡ false
        → Option.map with_length rest ≡ none
        → Option.map with_length
            (elim (if b then some s else none) [ none ↦ rest | some y ↦ some y ])
          ≡ none
    back true s rest e h = cc
    back false s rest e h = h

map-none_iff : {A B : Type 0} (f : A → B) (o : Option A) → (Option.map f o ≡ none) ↔ (o ≡ none)
map-none_iff f none = ((λ h. refl), λ h. refl)
map-none_iff f (some a) = ((λ h. cc), λ h. cc)

or_else-none_iff : {A : Type 0} (x y : Option A) → (or_else x y ≡ none) ↔ ((x ≡ none) × (y ≡ none))
or_else-none_iff none y = ((λ h. (refl, h)), λ h. h.1)
or_else-none_iff (some a) y = ((λ h. cc), λ h. cc)

-- The loader gives no reason against a rule exactly where each predicate can be observed.
pub IsAlive-IsObserved : (rule : Rule) → IsAlive rule ↔ IsObserved rule
unfolding dead_rule_reason comm_gap path_gap unobservable_comm unobservable_path_pattern
IsAlive-IsObserved rule = (
  (λ h.
      let (s, h1) = (or_else-none_iff _ _).0 h in
      let (c, h2) = (or_else-none_iff _ _).0 h1 in
      let (p, x) = (or_else-none_iff _ _).0 h2 in
      record {
        syscalls = (unhooked_iff rule.id rule.syscalls).0 s;
        comms = (first_over_limit_iff 15 rule.comm_in).0 ((map-none_iff _ _).0 c);
        prefixes = (first_over_limit_iff 255 rule.path_prefix).0 ((map-none_iff _ _).0 p);
        suffixes = (first_over_limit_iff 255 rule.path_suffix).0 ((map-none_iff _ _).0 x);
      }),
  (λ o. (or_else-none_iff _ _).1 (
    (unhooked_iff rule.id rule.syscalls).1 o.syscalls,
    (or_else-none_iff _ _).1 (
      (map-none_iff _ _).1 ((first_over_limit_iff 15 rule.comm_in).1 o.comms),
      (or_else-none_iff _ _).1 (
        (map-none_iff _ _).1 ((first_over_limit_iff 255 rule.path_prefix).1 o.prefixes),
        (map-none_iff _ _).1 ((first_over_limit_iff 255 rule.path_suffix).1 o.suffixes),
      ),
    ),
  )),
)
