-- ===== src/Ebpf/Krules/Patterns.antt =====
-- crates/ferrum-ebpf-progs/src/lib.rs: the comparison of buffers is that of the texts in them.
use ferrum.Prelude.{
  ℕ, zero, suc, ◌+◌, ◌≤◌, ◌<◌, ◌≡◌, refl, ap, ◌∙◌, Bool, true, false, ◌&&◌, [], ◌∷◌, ◌++◌, length,
  replicate, All, ◌==◌, arith,
}
use ferrum.Text.{Str, str_eq, starts_with}
use ferrum.Datapath.Slot.Diff.{agree, IsBytes}
use ferrum.Datapath.Slot.Reference.{at}

-- The bytes of a text that the kernel can hold: none is NUL.
abbrev pub IsPlain : Str → Type 0
IsPlain s = All (λ b. ((b == 0) ≡ false) × (b < 256)) s

-- The zeros behind a text read like the end of it.
at-replicate : (k i : ℕ) → at (replicate k 0) i ≡ 0
at-replicate zero i = refl
at-replicate (suc k) zero = refl
at-replicate (suc k) (suc i) = at-replicate k i

pub at-pad : (s : Str) (k i : ℕ) → at (s ++ replicate k 0) i ≡ at s i
at-pad [] k i = at-replicate k i
at-pad (b ∷ s) k zero = refl
at-pad (b ∷ s) k (suc i) = at-pad s k i

pub at-IsBytes : (s : Str) → All (λ b. b < 256) s → IsBytes (at s)
at-IsBytes [] h i = omega arith
at-IsBytes (b ∷ s) h zero = h.0
at-IsBytes (b ∷ s) h (suc i) = at-IsBytes s h.1 i

-- `agree` looks at no more than its two buffers give.
pub agree-cong :
    (a a' b b' : ℕ → ℕ) (n i : ℕ)
    → ((j : ℕ) → j < i + n → a j ≡ a' j)
    → ((j : ℕ) → j < i + n → b j ≡ b' j)
    → agree a b n i ≡ agree a' b' n i
unfolding agree
agree-cong a a' b b' zero i f g = refl
agree-cong a a' b b' (suc n) i f g = rw (f i (omega arith)) (
    rw (g i (omega arith)) (
      ap (◌&&◌ (a' i == b' i)) (
        agree-cong a a' b b' n (suc i) (λ j h. f j (omega (arith, h)))
          (λ j h. g j (omega (arith, h))))))

agree_later :
    (x y : ℕ) (s t : Str) (n i : ℕ)
    → agree (at (x ∷ s)) (at (y ∷ t)) n (suc i) ≡ agree (at s) (at t) n i
unfolding agree
agree_later x y s t zero i = refl
agree_later x y s t (suc n) i = ap (◌&&◌ (at s i == at t i)) (agree_later x y s t n (suc i))

agree_nothing : (n i : ℕ) → agree (at []) (at []) n i ≡ true
unfolding agree
agree_nothing zero i = refl
agree_nothing (suc n) i = agree_nothing n (suc i)

agree_later_nothing :
    (x : ℕ) (s : Str) (n i : ℕ) → agree (at (x ∷ s)) (at []) n (suc i) ≡ agree (at s) (at []) n i
unfolding agree
agree_later_nothing x s zero i = refl
agree_later_nothing x s (suc n) i = ap (◌&&◌ (at s i == 0)) (agree_later_nothing x s n (suc i))

-- Whole buffers agree exactly where the texts are equal.
pub agree-str_eq :
    (n : ℕ) (s t : Str)
    → IsPlain s
    → IsPlain t
    → length s ≤ n
    → length t ≤ n
    → agree (at s) (at t) n 0 ≡ str_eq s t
unfolding agree str_eq
agree-str_eq zero [] [] p q h k = refl
agree-str_eq zero [] (y ∷ t) p q h k = absurd (omega arith)
agree-str_eq zero (x ∷ s) t p q h k = absurd (omega arith)
agree-str_eq (suc n) [] [] p q h k = agree_nothing n 1
agree-str_eq (suc n) [] (y ∷ t) p q h k = ground (arith, q.0.0)
agree-str_eq (suc n) (x ∷ s) [] p q h k = ground (arith, p.0.0)
agree-str_eq (suc n) (x ∷ s) (y ∷ t) p q h k =
    ap (◌&&◌ (x == y))
      (agree_later x y s t n 0 ∙ agree-str_eq n s t p.1 q.1 (omega arith) (omega arith))

-- The head of a buffer agrees with a pattern exactly where the text starts with it.
pub agree-starts_with : (p s : Str) → IsPlain p → agree (at p) (at s) (length p) 0 ≡ starts_with s p
unfolding agree starts_with
agree-starts_with [] s h = refl
agree-starts_with (b ∷ p) [] h = ground (arith, h.0.0)
agree-starts_with (b ∷ p) (c ∷ s) h =
    eq_comm b c _ _ (agree_later b c p s (length p) 0 ∙ agree-starts_with p s h.1)
  where
    eq_comm : (b c : ℕ) (x y : Bool) → x ≡ y → (b == c && x) ≡ (c == b && y)
    eq_comm b c x y e = ground (arith, e)
