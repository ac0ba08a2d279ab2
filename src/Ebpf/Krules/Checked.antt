-- ===== src/Ebpf/Krules/Checked.antt =====
-- crates/ferrum-ebpf/src/krules.rs: the predicates that pass the checks of the compiler.
use ferrum.Prelude.{
  ℕ, ◌≤◌, ◌<◌, ◌≡◌, refl, ap, ◌∙◌, Bool, false, ◌||◌, Option, none, some, List, [], ◌∷◌, map,
  length, is_empty, any, All, ltb, ◌==◌, if◌then◌else◌, arith,
}
use ferrum.Text.{Str}
use ferrum.Datapath.Slot.{kpath_len}
use ferrum.Ebpf.Krules.{
  Reason, Attempt, fails, gives, ◌>=>◌, pattern_reason, checked, or_any, path_patterns, comm_reason,
  comm_patterns,
}
use ferrum.Ebpf.Krules.Patterns.{IsPlain}
use ferrum.Ebpf.Krules.Applies.{IsHeld}

-- A list of predicates as the loops read it: one that asks for nothing where it is empty.
abbrev pub choices : List Str → List (Option Str)
choices [] = none ∷ []
choices (s ∷ ss) = some s ∷ map some ss

-- What a step gives, its first part gave.
pub >=>-gives {ℓ κ} :
    {A : Type ℓ} {B : Type κ} (first : Attempt A) (next : A → Attempt B) (out : B)
    → (first >=> next) ≡ gives out
    → (a : A) × (first ≡ gives a) × (next a ≡ gives out)
>=>-gives (fails why) next out h = cc
>=>-gives (gives a) next out h = (a, refl, h)

pub checked-gives :
    (reason : Str → Option Reason) (ss : List Str) (out : List (Option Str))
    → checked reason ss ≡ gives out
    → (out ≡ map some ss) × All (λ s. reason s ≡ none) ss
unfolding checked
checked-gives reason [] out h = (cc, tt)
checked-gives reason (s ∷ ss) out h =
    let (fine, tail, more, e) = first (reason s) (checked reason ss) h in
    let (same, rest) = checked-gives reason ss tail more in
    (e ∙ ap (◌∷◌ (some s)) same, (fine, rest))
  where
    first :
        (o : Option Reason) (rest : Attempt (List (Option Str)))
        → elim o [ some why ↦ fails why | none ↦ rest >=> λ out. gives (some s ∷ out) ] ≡ gives out
        → (o ≡ none) × (tail : List (Option Str)) × (rest ≡ gives tail) × (out ≡ some s ∷ tail)
    first none (gives tail) h = (refl, tail, refl, cc)
    first none (fails why) h = cc
    first (some why) rest h = cc

-- What a pattern and a `comm` without a reason against them are like.
pattern_reason-none :
    (field bytes : Str)
    → pattern_reason field bytes ≡ none
    → (is_empty bytes ≡ false) × (any (λ b. b == 0) bytes ≡ false) × (length bytes ≤ kpath_len)
pattern_reason-none field bytes h =
    passed (is_empty bytes) (any (λ b. b == 0) bytes) (length bytes) _ _ _ h
  where
    passed :
        (a b : Bool) (n : ℕ) (r s t : Reason)
        → (if a then some r else if b then some s else if ltb kpath_len n then some t else none)
          ≡ none
        → (a ≡ false) × (b ≡ false) × (n ≤ kpath_len)
    passed a b n r s t h = ground (arith, h)

comm_reason-none :
    (bytes : Str) → comm_reason bytes ≡ none → (is_empty bytes ≡ false) × (length bytes ≤ 15)
comm_reason-none bytes h = passed (is_empty bytes) (length bytes) _ _ h
  where
    passed :
        (a : Bool) (n : ℕ) (r s : Reason)
        → (if a then some r else if ltb 15 n then some s else none) ≡ none
        → (a ≡ false) × (n ≤ 15)
    passed a n r s h = ground (arith, h)

IsPlain-of : (s : Str) → All (λ b. b < 256) s → any (λ b. b == 0) s ≡ false → IsPlain s
IsPlain-of [] bytes h = tt
IsPlain-of (b ∷ s) bytes h =
    let (first, rest) = neither (b == 0) (any (λ b. b == 0) s) h in
    ((first, bytes.0), IsPlain-of s bytes.1 rest)
  where
    neither : (x y : Bool) → (x || y) ≡ false → (x ≡ false) × (y ≡ false)
    neither x y h = ground (arith, h)

-- Texts whose bytes are bytes, and that are plain besides.
abbrev pub AreBytes : List Str → Type 0
AreBytes ss = All (λ s. All (λ b. b < 256) s) ss

abbrev pub ArePlain : List Str → Type 0
ArePlain ss = All IsPlain ss

abbrev pub AreFilled : List Str → Type 0
AreFilled ss = All (λ s. is_empty s ≡ false) ss

patterns-IsHeld :
    (field : Str) (ss : List Str)
    → AreBytes ss
    → All (λ s. pattern_reason field s ≡ none) ss
    → All (IsHeld kpath_len) (map some ss) × AreFilled ss
patterns-IsHeld field [] bytes h = (tt, tt)
patterns-IsHeld field (s ∷ ss) bytes h =
    let (full, free, short) = pattern_reason-none field s h.0 in
    let (held, rest) = patterns-IsHeld field ss bytes.1 h.1 in
    (((IsPlain-of s bytes.0 free, full, short), held), (full, rest))

comms-IsHeld :
    (ss : List Str)
    → ArePlain ss
    → All (λ s. comm_reason s ≡ none) ss
    → All (IsHeld 15) (map some ss)
comms-IsHeld [] plain h = tt
comms-IsHeld (s ∷ ss) plain h =
    let (full, short) = comm_reason-none s h.0 in
    ((plain.0, full, short), comms-IsHeld ss plain.1 h.1)

-- The patterns of a path that pass are those of the rule, and each fits a slot.
pub path_patterns-gives :
    (patterns : List Str) (field : Str) (out : List (Option Str))
    → AreBytes patterns
    → path_patterns patterns field ≡ gives out
    → (out ≡ choices patterns) × All (IsHeld kpath_len) (choices patterns) × AreFilled patterns
unfolding path_patterns
path_patterns-gives [] field out bytes h = (cc, (tt, tt), tt)
path_patterns-gives (s ∷ ss) field out bytes h =
    let (same, fine) = checked-gives (pattern_reason field) (s ∷ ss) out h in
    let (held, full) = patterns-IsHeld field (s ∷ ss) bytes fine in (same, held, full)

opened :
    (ss : List Str) (comms out : List (Option Str))
    → comms ≡ map some ss
    → gives (or_any comms) ≡ gives out
    → out ≡ choices ss
opened [] [] out same last = cc
opened [] (c ∷ comms) out same last = cc
opened (s ∷ ss) [] out same last = cc
opened (s ∷ ss) (c ∷ comms) out same last = cc

pub comm_patterns-gives :
    (comm_in : List Str) (out : List (Option Str))
    → ArePlain comm_in
    → comm_patterns comm_in ≡ gives out
    → (out ≡ choices comm_in) × All (IsHeld 15) (choices comm_in)
unfolding comm_patterns
comm_patterns-gives comm_in out plain h =
    let (comms, passed, last) = >=>-gives (checked comm_reason comm_in) _ out h in
    let (same, fine) = checked-gives comm_reason comm_in comms passed in
    finish comm_in comms out plain same last fine
  where
    finish :
        (ss : List Str) (comms out : List (Option Str))
        → ArePlain ss
        → comms ≡ map some ss
        → gives (or_any comms) ≡ gives out
        → All (λ s. comm_reason s ≡ none) ss
        → (out ≡ choices ss) × All (IsHeld 15) (choices ss)
    finish [] comms out plain same last fine = (opened [] comms out same last, (tt, tt))
    finish (s ∷ ss) comms out plain same last fine =
        (opened (s ∷ ss) comms out same last, comms-IsHeld (s ∷ ss) plain fine)
