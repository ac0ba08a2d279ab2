-- ===== src/Ebpf/Krules/Suffix.antt =====
-- crates/ferrum-ebpf-progs/src/lib.rs: the tail that the matcher reads is the end of the path.
use mathlib.Core.List.{reverse, reverse-append, reverse-reverse}
use ferrum.Prelude.{
  append-nil, ℕ, zero, suc, ◌+◌, ◌-◌, ◌%◌, ◌≤◌, ◌<◌, ◌≡◌, refl, sym, ap, ◌∙◌, subst, inl, inr, Bool,
  true, false, ◌&&◌, [], ◌∷◌, ◌++◌, length, take, drop, leb, ◌==◌, bit_and, Bool-cases, Bool-ext,
  ==_iff, &&_iff, arith,
}
use ferrum.Prelude.Bits.{table, table-holds}
use ferrum.Text.{Str, starts_with, ends_with}
use ferrum.Text.Laws.{starts_with-head, length-reverse}
use ferrum.Datapath.Slot.{sub_u16, tail_at}
use ferrum.Datapath.Slot.Diff.{agree}
use ferrum.Datapath.Slot.Reference.{at}
use ferrum.Ebpf.Krules.Patterns.{IsPlain, agree-cong, agree-starts_with}

-- A byte masked by 255 is itself.
byte_table : table 256 (λ x. bit_and x 255 == x) ≡ true
byte_table = refl

masked : (x : ℕ) → x < 256 → bit_and x 255 ≡ x
masked x h = (==_iff (bit_and x 255) x).0 (table-holds 256 (λ x. bit_and x 255 == x) x byte_table h)

-- No wrap and no mask happens inside the path.
tail_at-inside :
    (len slen i : ℕ)
    → slen ≤ len
    → len < 256
    → i < slen
    → tail_at (sub_u16 len slen) i ≡ len - slen + i
tail_at-inside len slen i le lt in_tail =
    ap (λ x. bit_and x 255) (inside len slen i le lt in_tail)
    ∙ masked (len - slen + i) (omega arith)
  where
    inside :
        (len slen i : ℕ)
        → slen ≤ len
        → len < 256
        → i < slen
        → (sub_u16 len slen + i) % 65536 ≡ len - slen + i
    inside len slen i le lt in_tail = omega arith

at-drop : (k : ℕ) (s : Str) (i : ℕ) → at s (k + i) ≡ at (drop k s) i
at-drop zero s i = ap (at s) (omega arith)
at-drop (suc k) [] i = refl
at-drop (suc k) (b ∷ s) i = ap (at (b ∷ s)) (shift k i) ∙ at-drop k s i
  where
    shift : (k i : ℕ) → suc k + i ≡ suc (k + i)
    shift k i = omega arith

take-drop : (k : ℕ) (s : Str) → take k s ++ drop k s ≡ s
take-drop zero s = refl
take-drop (suc k) [] = refl
take-drop (suc k) (b ∷ s) = ap (◌∷◌ b) (take-drop k s)

length-drop : (k : ℕ) (s : Str) → k ≤ length s → length (drop k s) ≡ length s - k
length-drop zero s h = omega arith
length-drop (suc k) [] h = omega arith
length-drop (suc k) (b ∷ s) h = omega (arith, length-drop k s (omega arith))

starts_with-length : (s p : Str) → starts_with s p ≡ true → length p ≤ length s
unfolding starts_with
starts_with-length s [] h = omega arith
starts_with-length [] (b ∷ p) h = absurd (ground arith)
starts_with-length (c ∷ s) (b ∷ p) h =
    omega (arith, starts_with-length s p ((&&_iff (c == b) (starts_with s p)).0 h).1)

starts_with-all : (s p : Str) → length s ≡ length p → starts_with s p ≡ true → s ≡ p
unfolding starts_with
starts_with-all [] [] e h = refl
starts_with-all [] (b ∷ p) e h = absurd (omega arith)
starts_with-all (c ∷ s) [] e h = absurd (omega arith)
starts_with-all (c ∷ s) (b ∷ p) e h =
    let (first, rest) = (&&_iff (c == b) (starts_with s p)).0 h in
    λ i. (==_iff c b).0 first i ∷ starts_with-all s p (omega arith) rest i

starts_with_self : (p z : Str) → starts_with (p ++ z) p ≡ true
unfolding starts_with
starts_with_self [] z = refl
starts_with_self (b ∷ p) z = ground (arith, starts_with_self p z)

-- The end of a text that is as long as the pattern decides.
ends_with-back :
    (front back p : Str) → length back ≡ length p → starts_with back p ≡ ends_with (front ++ back) p
unfolding ends_with
ends_with-back front back p e =
    Bool-ext (starts_with back p) (starts_with (reverse (front ++ back)) (reverse p))
      (λ h.
        rw (reverse-append front back)
          (rw (starts_with-all back p e h) (starts_with_self (reverse p) (reverse front))))
      (λ h.
        let g : starts_with (reverse back ++ reverse front) (reverse p) ≡ true =
          sym (ap (λ s. starts_with s (reverse p)) (reverse-append front back)) ∙ h in
        let same : reverse back ≡ reverse p =
          starts_with-all (reverse back) (reverse p)
            (length-reverse back ∙ e ∙ sym (length-reverse p))
            (starts_with-head (reverse back) (reverse front) (reverse p)
              (omega (arith, length-reverse back, length-reverse p, e)) g) in
        whole back p (sym (reverse-reverse back) ∙ ap reverse same ∙ reverse-reverse p))
  where
    no_tail : (p : Str) → starts_with p p ≡ true
    no_tail p = subst (λ q. starts_with q p ≡ true) (append-nil p) (starts_with_self p [])

    whole : (back p : Str) → back ≡ p → starts_with back p ≡ true
    whole back p same = rw same (no_tail p)

ends_with-length : (path p : Str) → length path < length p → ends_with path p ≡ false
unfolding ends_with
ends_with-length path p beyond = elim (Bool-cases (starts_with (reverse path) (reverse p))) [
  | inr f ↦ f
  | inl t ↦ absurd (
      omega (
        arith,
        beyond,
        starts_with-length (reverse path) (reverse p) t,
        length-reverse path,
        length-reverse p,
      ))
]

-- The tail that the matcher compares agrees with a pattern exactly where the path ends with it.
pub agree-ends_with :
    (p path : Str)
    → IsPlain p
    → length path < 256
    → (agree (at p) (λ i. at path (tail_at (sub_u16 (length path) (length p)) i)) (length p) 0
        && leb (length p) (length path))
      ≡ ends_with path p
agree-ends_with p path plain short = elim (Bool-cases (leb (length p) (length path))) [
  | inl fits ↦ rw (fits, and_true _) (inside fits)
  | inr beyond ↦
      rw (beyond, and_false _)
        (sym (ends_with-length path p (lt_of (length p) (length path) beyond)))
]
  where
    and_true : (b : Bool) → (b && true) ≡ b
    and_true b = ground arith

    and_false : (b : Bool) → (b && false) ≡ false
    and_false b = ground arith

    le_of : (m n : ℕ) → leb m n ≡ true → m ≤ n
    le_of m n h = ground arith

    lt_of : (m n : ℕ) → leb m n ≡ false → n < m
    lt_of m n h = ground arith

    inside :
        leb (length p) (length path) ≡ true
        → agree (at p) (λ i. at path (tail_at (sub_u16 (length path) (length p)) i)) (length p) 0
          ≡ ends_with path p
    inside fits =
        let le = le_of (length p) (length path) fits in
        let k = length path - length p in
        agree-cong (at p) (at p) (λ i. at path (tail_at (sub_u16 (length path) (length p)) i))
          (at (drop k path)) (length p) 0 (λ j h. refl)
          (λ j h.
            ap (at path) (tail_at-inside (length path) (length p) j le short (omega (arith, h)))
            ∙ at-drop k path j)
        ∙ agree-starts_with p (drop k path) plain
        ∙ ends_with-back (take k path) (drop k path) p
            (omega (arith, length-drop k path (omega arith), le))
        ∙ ap (λ s. ends_with s p) (take-drop k path)
