-- ===== src/Ebpf/Prefilter/Masks.antt =====
-- crates/ferrum-ebpf/src/prefilter.rs: a bit that is set stays set.
use ferrum.Prelude.{
  ℕ, suc, ◌^◌, ◌<◌, ◌≡◌, refl, Bool, true, false, ◌&&◌, ◌||◌, not, Option, some, List, [], ◌∷◌, ltb,
  ltb_iff, inl, inr, any, ◌+◌, length, Option-cases, Bool-cases, if◌then◌else◌, bit_or, arith,
}
use ferrum.Prelude.Bits.{table, table-holds}
use ferrum.Text.{Str, str_eq, trim}
use ferrum.Text.Laws.{str_eq_iff}
use ferrum.Ids.{datapath_syscalls}
use ferrum.Ebpf.Spec.{Rule}
use ferrum.Ebpf.Prefilter.{
  path_bearing_syscalls, position, syscall_index, has_bit, set_at, set, mask_upto, all_mask,
  set_each, set_trimmed, widen_for_rule, widen,
}

some-injective : (a b : ℕ) → ◌≡◌ {A = Option ℕ} (some a) (some b) → a ≡ b
some-injective a b h = cc

or-rest : (a b : Bool) → a ≡ false → (a || b) ≡ true → b ≡ true
or-rest a b e h = ground arith

or_test : ℕ → ℕ → ℕ → Bool
or_test m i j =
    ltb (bit_or m (2 ^ j)) 128
    && has_bit (bit_or m (2 ^ j)) j
    && (not (has_bit m i) || has_bit (bit_or m (2 ^ j)) i)

or_table : table 128 (λ m. table 7 (λ i. table 7 (or_test m i))) ≡ true
unfolding or_test
or_table = refl

or-set :
    (m i j : ℕ)
    → m < 128
    → i < 7
    → j < 7
    → (bit_or m (2 ^ j) < 128)
      × (has_bit (bit_or m (2 ^ j)) j ≡ true)
      × (has_bit m i ≡ true → has_bit (bit_or m (2 ^ j)) i ≡ true)
unfolding or_test
or-set m i j hm hi hj =
    let at_m = table-holds 128 (λ m. table 7 (λ i. table 7 (or_test m i))) m or_table hm in
    let at_i = table-holds 7 (λ i. table 7 (or_test m i)) i at_m hi in
    read (ltb (bit_or m (2 ^ j)) 128) (has_bit (bit_or m (2 ^ j)) j) (has_bit m i)
      (has_bit (bit_or m (2 ^ j)) i) (bit_or m (2 ^ j)) (ltb_iff (bit_or m (2 ^ j)) 128).0
      (table-holds 7 (or_test m i) j at_i hj)
  where
    read :
        (a b c d : Bool) (n : ℕ)
        → (a ≡ true → n < 128)
        → (a && b && (not c || d)) ≡ true
        → (n < 128) × (b ≡ true) × (c ≡ true → d ≡ true)
    read true true c d n f h = (f refl, refl, λ e. ground (arith, h, e))
    read true false c d n f h = absurd (ground arith)
    read false b c d n f h = absurd (ground arith)

all_test : ℕ → Bool
all_test i = has_bit all_mask i

all_table : table 7 all_test ≡ true
unfolding all_test all_mask mask_upto
all_table = refl

pub all_mask-bits : (i : ℕ) → i < 7 → has_bit all_mask i ≡ true
unfolding all_test
all_mask-bits i h = table-holds 7 all_test i all_table h

pub all_mask_small : all_mask < 128
unfolding all_mask mask_upto
all_mask_small = omega arith

-- From a mask of the hooked syscalls to another that has all its bits.
abbrev pub Grows : ℕ → ℕ → Type 0
Grows m m' = m < 128 → (m' < 128) × ((i : ℕ) → i < 7 → has_bit m i ≡ true → has_bit m' i ≡ true)

Grows-refl : (m : ℕ) → Grows m m
Grows-refl m h = (h, λ i below b. b)

Grows-trans : (a b c : ℕ) → Grows a b → Grows b c → Grows a c
Grows-trans a b c f g h =
    let (small, keeps) = f h in
    let (small', keeps') = g small in (small', λ i below e. keeps' i below (keeps i below e))

Grows-all_mask : (m : ℕ) → Grows m all_mask
Grows-all_mask m h = (all_mask_small, λ i below e. all_mask-bits i below)

position-lt :
    (xs : List Str) (name : Str) (i j : ℕ) → position xs name i ≡ some j → j < i + length xs
unfolding position
position-lt [] name i j h = cc
position-lt (x ∷ xs) name i j h =
    step (str_eq x name) (position xs name (suc i)) (position-lt xs name (suc i) j) h
  where
    step :
        (b : Bool) (rest : Option ℕ)
        → (rest ≡ some j → j < suc i + length xs)
        → (if b then some i else rest) ≡ some j
        → j < i + suc (length xs)
    step true rest f e = omega (arith, some-injective i j e)
    step false rest f e = omega (arith, f e)

pub syscall_index-lt : (name : Str) (j : ℕ) → syscall_index name ≡ some j → j < 7
unfolding syscall_index
syscall_index-lt name j h = position-lt datapath_syscalls name 0 j h

Grows-set : (m : ℕ) (name : Str) → Grows m (set m name)
unfolding set
Grows-set m name h = elim (Option-cases (syscall_index name)) [
  | inl e ↦ rw (e, set_at) (h, λ i below b. b)
  | inr (j, e) ↦
      let hj = syscall_index-lt name j e in
      rw (e, set_at)
        ((or-set m 0 j h (omega arith) hj).0, λ i below b. (or-set m i j h below hj).2 b)
]

pub set-sees :
    (m : ℕ) (name : Str) (i : ℕ)
    → m < 128
    → syscall_index name ≡ some i
    → has_bit (set m name) i ≡ true
unfolding set
set-sees m name i h e = rw (e, set_at) (or-set m 0 i h (omega arith) (syscall_index-lt name i e)).1

pub Grows-set_each : (m : ℕ) (xs : List Str) → Grows m (set_each m xs)
unfolding set_each
Grows-set_each m [] = Grows-refl m
Grows-set_each m (x ∷ xs) =
    Grows-trans m (set m x) (set_each (set m x) xs) (Grows-set m x) (Grows-set_each (set m x) xs)

pub Grows-set_trimmed : (m : ℕ) (xs : List Str) → Grows m (set_trimmed m xs)
unfolding set_trimmed
Grows-set_trimmed m [] = Grows-refl m
Grows-set_trimmed m (x ∷ xs) =
    Grows-trans m (set m (trim x)) (set_trimmed (set m (trim x)) xs) (Grows-set m (trim x))
      (Grows-set_trimmed (set m (trim x)) xs)

Grows-if : (b : Bool) (m x y : ℕ) → Grows m x → Grows m y → Grows m (if b then x else y)
Grows-if true m x y f g = f
Grows-if false m x y f g = g

pub Grows-widen_for_rule : (m : ℕ) (rule : Rule) → Grows m (widen_for_rule m rule)
unfolding widen_for_rule
Grows-widen_for_rule m rule =
    Grows-if _ m _ _ (Grows-set_trimmed m rule.syscalls)
      (Grows-if _ m _ _ (Grows-set_each m path_bearing_syscalls) (Grows-all_mask m))

pub Grows-widen : (m : ℕ) (rules : List Rule) → Grows m (widen m rules)
unfolding widen
Grows-widen m [] = Grows-refl m
Grows-widen m (rule ∷ rules) =
    Grows-trans m (widen_for_rule m rule) (widen (widen_for_rule m rule) rules)
      (Grows-widen_for_rule m rule) (Grows-widen (widen_for_rule m rule) rules)

-- A syscall that is among those set is seen.
pub set_each-sees :
    (m : ℕ) (xs : List Str) (name : Str) (i : ℕ)
    → m < 128
    → syscall_index name ≡ some i
    → any (λ x. str_eq x name) xs ≡ true
    → has_bit (set_each m xs) i ≡ true
unfolding set_each
set_each-sees m [] name i h e a = absurd (ground arith)
set_each-sees m (x ∷ xs) name i h e a = elim (Bool-cases (str_eq x name)) [
  | inl same ↦
      let small = (Grows-set m x h).0 in
      (Grows-set_each (set m x) xs small).1 i (syscall_index-lt name i e)
        (set-sees m x i h (rw ((str_eq_iff x name).0 same) e))
  | inr other ↦ set_each-sees (set m x) xs name i (Grows-set m x h).0 e (or-rest _ _ other a)
]

pub set_trimmed-sees :
    (m : ℕ) (xs : List Str) (name : Str) (i : ℕ)
    → m < 128
    → syscall_index name ≡ some i
    → trim name ≡ name
    → any (λ x. str_eq x name) xs ≡ true
    → has_bit (set_trimmed m xs) i ≡ true
unfolding set_trimmed
set_trimmed-sees m [] name i h e t a = absurd (ground arith)
set_trimmed-sees m (x ∷ xs) name i h e t a = elim (Bool-cases (str_eq x name)) [
  | inl same ↦
      let small = (Grows-set m (trim x) h).0 in
      (Grows-set_trimmed (set m (trim x)) xs small).1 i (syscall_index-lt name i e)
        (set-sees m (trim x) i h (rw ((str_eq_iff x name).0 same) (rw t e)))
  | inr other ↦
      set_trimmed-sees (set m (trim x)) xs name i (Grows-set m (trim x) h).0 e t
        (or-rest _ _ other a)
]
