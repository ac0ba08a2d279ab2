-- ===== src/Text/Laws.antt =====
-- Laws of the text operations.
use ferrum.Prelude.{
  ℕ, zero, suc, ◌∙◌, length-append, ◌≤◌, ◌≡◌, refl, ◌↔◌, true, List, [], ◌∷◌, ◌++◌, length, arith,
  ap,
}
use mathlib.Core.List.{reverse, reverse-cons, reverse-reverse}
use ferrum.Text.{Str, str_eq, starts_with, skip, space_front, space_back, trim}

str_eq→eq : (x y : Str) → str_eq x y ≡ true → x ≡ y
unfolding str_eq
str_eq→eq [] [] h = refl
str_eq→eq [] (b ∷ y) h = cc
str_eq→eq (a ∷ x) [] h = cc
str_eq→eq (a ∷ x) (b ∷ y) h = ground (arith, str_eq→eq x y)

pub str_eq_refl : (x : Str) → str_eq x x ≡ true
unfolding str_eq
str_eq_refl [] = refl
str_eq_refl (a ∷ x) = ground (arith, str_eq_refl x)

pub str_eq_iff : (x y : Str) → (str_eq x y ≡ true) ↔ (x ≡ y)
str_eq_iff x y = (str_eq→eq x y, λ e. rw e (str_eq_refl y))

-- A prefix that is no longer than the head of a text is a prefix of the head.
pub starts_with-head :
    (head tail p : Str)
    → length p ≤ length head
    → starts_with (head ++ tail) p ≡ true
    → starts_with head p ≡ true
unfolding starts_with
starts_with-head [] tail [] le h = refl
starts_with-head [] tail (b ∷ p) le h = absurd (omega arith)
starts_with-head (a ∷ head) tail [] le h = refl
starts_with-head (a ∷ head) tail (b ∷ p) le h =
    ground (arith, starts_with-head head tail p (omega arith))

skip_shrinks :
    (width : Str → ℕ) (pending : ℕ) (s : Str)
    → (length (skip width pending s) ≤ length s)
      × (length s ≡ length (skip width pending s) → skip width pending s ≡ s)
unfolding skip
skip_shrinks width pending [] = (omega arith, λ e. refl)
skip_shrinks width zero (c ∷ s) = skip_step width c s (width (c ∷ s)) (λ n. skip_shrinks width n s)
  where
    skip_step :
        (width : Str → ℕ) (c : ℕ) (s : Str) (n : ℕ)
        → ((n : ℕ)
            → (length (skip width n s) ≤ length s)
              × (length s ≡ length (skip width n s) → skip width n s ≡ s))
        → (length (elim n [ zero ↦ c ∷ s | suc m ↦ skip width m s ]) ≤ length (c ∷ s))
          × (length (c ∷ s) ≡ length (elim n [ zero ↦ c ∷ s | suc m ↦ skip width m s ])
              → elim n [ zero ↦ c ∷ s | suc m ↦ skip width m s ] ≡ c ∷ s)
    skip_step width c s zero h = (omega arith, λ e. refl)
    skip_step width c s (suc n) h = (omega (arith, (h n).0), λ e. absurd (omega (arith, (h n).0)))
skip_shrinks width (suc n) (c ∷ s) = (
  omega (arith, (skip_shrinks width n s).0),
  λ e. absurd (omega (arith, (skip_shrinks width n s).0)),
)

pub length-reverse {ℓ} : {A : Type ℓ} (xs : List A) → length (reverse xs) ≡ length xs
length-reverse [] = refl
length-reverse (x ∷ xs) =
    ap length (reverse-cons x xs)
    ∙ length-append (reverse xs) (x ∷ [])
    ∙ omega (arith, length-reverse xs)

-- Trimming that keeps the length changes nothing.
pub trim_keeps : (s : Str) → length (trim s) ≡ length s → trim s ≡ s
unfolding trim
trim_keeps s e =
    let front = skip_shrinks space_front 0 s in
    let l1 = skip space_front 0 s in
    let back = skip_shrinks space_back 0 (reverse l1) in
    let kept : skip space_back 0 (reverse l1) ≡ reverse l1 = back.1 (
      omega (
        arith,
        e,
        front.0,
        back.0,
        length-reverse l1,
        length-reverse (skip space_back 0 (reverse l1)),
      )) in
    ap reverse kept
    ∙ reverse-reverse l1
    ∙ front.1 (
        omega (
          arith,
          e,
          front.0,
          back.0,
          length-reverse l1,
          length-reverse (skip space_back 0 (reverse l1)),
        ))
