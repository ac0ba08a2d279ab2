-- ===== src/Ebpf/Decode/Spared.antt =====
-- crates/ferrum-ebpf/src/spec.rs: which programs kill or isolate whatever they meet, told apart from
-- the tests of the loader, and that these tests tell the same.
use ferrum.Prelude.{
  ◌≡◌, ◌≢◌, refl, ◌⊎◌, inl, inr, ◌↔◌, Bool, true, false, ◌&&◌, List, [], ◌∷◌, is_empty, All,
  All-map, arith,
}
use ferrum.Text.{Str}
use ferrum.Ebpf.Spec.{Action, allow, audit, deny, kill, isolate, Rule, EbpfSpec}
use ferrum.Ebpf.Decode.{is_kill_or_isolate, is_kill_all}
use ferrum.Ebpf.Decode.Gates.{IsSpared}

abbrev pub Strikes : Action → Type 0
Strikes action = (action ≡ kill) ⊎ (action ≡ isolate)

abbrev pub SomeGiven : List Str → List Str → List Str → List Str → Type 0
SomeGiven w x y z = (w ≢ []) ⊎ (x ≢ []) ⊎ (y ≢ []) ⊎ (z ≢ [])

-- The default neither kills nor isolates, and a rule that does names a syscall, a `comm` or a
-- pattern.
pub record IsSafe (spec : EbpfSpec) : Type 0 where
  pub default_spares : ¬ Strikes spec.default_action
  pub narrow :
      All
        (λ r. Strikes r.action → SomeGiven r.syscalls r.comm_in r.path_prefix r.path_suffix)
        spec.rules

is_kill_or_isolate-Strikes : (a : Action) → (is_kill_or_isolate a ≡ true) ↔ Strikes a
is_kill_or_isolate-Strikes a = (forth a, λ s. elim s [ inl e ↦ rw e refl | inr e ↦ rw e refl ])
  where
    forth : (a : Action) → is_kill_or_isolate a ≡ true → Strikes a
    forth allow h = cc
    forth audit h = cc
    forth deny h = cc
    forth kill h = inl refl
    forth isolate h = inr refl

spared_iff : (a : Action) → (is_kill_or_isolate a ≡ false) ↔ (¬ Strikes a)
spared_iff a = (
  (λ h s. clash h ((is_kill_or_isolate-Strikes a).1 s)),
  (λ n. pick (is_kill_or_isolate a) (λ e. n ((is_kill_or_isolate-Strikes a).0 e))),
)
  where
    clash : {b : Bool} → b ≡ false → b ≡ true → ⊥
    clash f t = cc

    pick : (b : Bool) → ¬ (b ≡ true) → b ≡ false
    pick true n = absurd (n refl)
    pick false n = refl

is_empty-SomeGiven :
    (w x y z : List Str)
    → ((is_empty w && is_empty x && is_empty y && is_empty z) ≡ false) ↔ SomeGiven w x y z
is_empty-SomeGiven w x y z = (forth w x y z, back w x y z)
  where
    cons-ne-nil : (s : Str) (ss : List Str) → (s ∷ ss) ≢ []
    cons-ne-nil s ss h = cc

    forth :
        (w x y z : List Str)
        → (is_empty w && is_empty x && is_empty y && is_empty z) ≡ false
        → SomeGiven w x y z
    forth (s ∷ w) x y z h = inl (cons-ne-nil s w)
    forth [] (s ∷ x) y z h = inr (inl (cons-ne-nil s x))
    forth [] [] (s ∷ y) z h = inr (inr (inl (cons-ne-nil s y)))
    forth [] [] [] (s ∷ z) h = inr (inr (inr (cons-ne-nil s z)))
    forth [] [] [] [] h = cc

    back :
        (w x y z : List Str)
        → SomeGiven w x y z
        → (is_empty w && is_empty x && is_empty y && is_empty z) ≡ false
    back (s ∷ w) x y z h = refl
    back [] (s ∷ x) y z h = refl
    back [] [] (s ∷ y) z h = refl
    back [] [] [] (s ∷ z) h = refl
    back [] [] [] [] (inl n) = absurd (n refl)
    back [] [] [] [] (inr (inl n)) = absurd (n refl)
    back [] [] [] [] (inr (inr (inl n))) = absurd (n refl)
    back [] [] [] [] (inr (inr (inr n))) = absurd (n refl)

abbrev IsNarrow : Rule → Type 0
IsNarrow r = Strikes r.action → SomeGiven r.syscalls r.comm_in r.path_prefix r.path_suffix

is_kill_all-IsNarrow : (r : Rule) → (is_kill_all r ≡ false) ↔ IsNarrow r
unfolding is_kill_all
is_kill_all-IsNarrow r = (
  (λ h s. (is_empty-SomeGiven r.syscalls r.comm_in r.path_prefix r.path_suffix).0 (
      rest (is_kill_or_isolate r.action) (is_empty r.syscalls) (is_empty r.comm_in)
        (is_empty r.path_prefix) (is_empty r.path_suffix)
        ((is_kill_or_isolate-Strikes r.action).1 s) h)),
  (λ n.
      whole (is_kill_or_isolate r.action) (is_empty r.syscalls) (is_empty r.comm_in)
        (is_empty r.path_prefix) (is_empty r.path_suffix)
        (λ e.
          (is_empty-SomeGiven r.syscalls r.comm_in r.path_prefix r.path_suffix).1
            (n ((is_kill_or_isolate-Strikes r.action).0 e)))),
)
  where
    rest :
        (a w x y z : Bool) → a ≡ true → (a && w && x && y && z) ≡ false → (w && x && y && z) ≡ false
    rest a w x y z e h = ground (arith, e, h)

    whole :
        (a w x y z : Bool)
        → (a ≡ true → (w && x && y && z) ≡ false)
        → (a && w && x && y && z) ≡ false
    whole true w x y z f = f refl
    whole false w x y z f = refl

-- The tests against what kills or isolates whatever it meets are passed exactly where nothing does.
pub IsSpared-IsSafe : (spec : EbpfSpec) → IsSpared spec ↔ IsSafe spec
IsSpared-IsSafe spec = (
  (λ s. record {
    default_spares = (spared_iff spec.default_action).0 s.default_spares;
    narrow = All-map _ _ (λ r. (is_kill_all-IsNarrow r).0) spec.rules s.rules_narrow;
  }),
  (λ s. record {
    default_spares = (spared_iff spec.default_action).1 s.default_spares;
    rules_narrow = All-map _ _ (λ r. (is_kill_all-IsNarrow r).1) spec.rules s.narrow;
  }),
)
