-- ===== src/Ids.antt =====
-- crates/ferrum-ids: the numbers of the two ABIs, the syscalls that the datapath hooks, and the
-- bounds on what a rule may name.
use ferrum.Prelude.{
  ℕ, Bool, true, not, Option, none, some, List, [], ◌∷◌, map, length, ltb, if◌then◌else◌, any,
  find_map,
}
use mathlib.Core.Option
use ferrum.Text.{Str, str, str_eq, contains, trim}

abbrev pub agent_abi : ℕ
agent_abi = 1

abbrev pub admission_abi : ℕ
admission_abi = 1

abbrev pub datapath_syscalls : List Str
datapath_syscalls =
    str "bpf"
    ∷ str "execve"
    ∷ str "execveat"
    ∷ str "finit_module"
    ∷ str "init_module"
    ∷ str "open"
    ∷ str "openat"
    ∷ []

abbrev pub comm_match_max : ℕ
comm_match_max = 15

abbrev pub path_match_max : ℕ
path_match_max = 255

-- `iter().find(p)`.
abbrev find {ℓ} : {A : Type ℓ} → (A → Bool) → List A → Option A
find p xs = find_map (λ x. if p x then some x else none) xs

unfoldable pub first_over_limit : List Str → ℕ → Option (Str × ℕ)
first_over_limit named limit =
    Option.map (λ s. (s, length s)) (find (λ s. ltb limit (length s)) named)

unfoldable pub unobservable_comm : List Str → Option (Str × ℕ)
unfolding first_over_limit
unobservable_comm named = first_over_limit named comm_match_max

unfoldable pub unobservable_path_pattern : List Str → Option (Str × ℕ)
unfolding first_over_limit
unobservable_path_pattern named = first_over_limit named path_match_max

pub record ArchRestrictedSyscall : Type 0 where
  pub syscall : Str
  pub arches : List Str

abbrev pub arch_restricted_syscalls : List ArchRestrictedSyscall
arch_restricted_syscalls = record { syscall = str "open"; arches = str "x86_64" ∷ [] } ∷ []

abbrev pub syscall_equivalence_classes : List (List Str)
syscall_equivalence_classes = (str "open" ∷ str "openat" ∷ []) ∷ []

unfoldable pub is_datapath_syscall : Str → Bool
unfolding contains
is_datapath_syscall name = contains datapath_syscalls name

unfoldable pub arch_restricted_syscall : Str → Option ArchRestrictedSyscall
unfolding str_eq
arch_restricted_syscall name = find (λ r. str_eq r.syscall name) arch_restricted_syscalls

unfoldable pub syscall_equivalence_class : Str → Option (List Str)
unfolding contains
syscall_equivalence_class name = find (λ class. contains class name) syscall_equivalence_classes

-- The body of the loop over the classes: `continue` and the end of the body are `none`.
class_gap : List Str → List Str → Option (Str × Str)
unfolding contains
class_gap names class = elim (find (λ m. contains names m) class) [
  | none ↦ none
  | some listed ↦ Option.map (λ m. (listed, m)) (find (λ m. not (contains names m)) class)
]

unfoldable pub uncovered_equivalent_syscall : List Str → Option (Str × Str)
unfolding class_gap trim
uncovered_equivalent_syscall named =
    find_map (class_gap (map trim named)) syscall_equivalence_classes

abbrev keeps_arch : Str → Option ArchRestrictedSyscall → Bool
keeps_arch arch none = true
keeps_arch arch (some r) = any (λ a. str_eq a arch) r.arches

abbrev filter_bool {ℓ} : {A : Type ℓ} → (A → Bool) → List A → List A
filter_bool p [] = []
filter_bool p (x ∷ xs) = let rest = filter_bool p xs in if p x then x ∷ rest else rest

unfoldable pub datapath_syscalls_for_arch : Str → List Str
unfolding arch_restricted_syscall
datapath_syscalls_for_arch arch =
    filter_bool (λ name. keeps_arch arch (arch_restricted_syscall name)) datapath_syscalls
