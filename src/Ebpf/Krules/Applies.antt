-- ===== src/Ebpf/Krules/Applies.antt =====
-- crates/ferrum-ebpf/src/krules.rs and crates/ferrum-ebpf-progs/src/lib.rs: a slot that is made of
-- one predicate of each kind applies where the event meets the three.
use ferrum.Prelude.{
  ℕ, suc, ◌-◌, min, ◌≤◌, ◌<◌, ◌≡◌, refl, sym, ap, subst, ◌∙◌, Bool, true, false, ◌&&◌, ◌||◌, not,
  Option, none, some, [], ◌∷◌, length, is_empty, All, All-map, leb, ◌==◌, arith,
}
use ferrum.Text.{Str, str_eq, starts_with, ends_with}
use ferrum.Datapath.Record.{comm_len, path_len}
use ferrum.Datapath.Slot.{kpath_len, sub_u16, tail_at}
use ferrum.Datapath.Slot.Diff.{agree, IsBytes}
use ferrum.Datapath.Slot.Reference.{at, IsSlot, IsPath, starts_ok, ends_ok, comm_ok}
use ferrum.Datapath.Fill.{filled}
use ferrum.Ebpf.Krules.Patterns.{
  IsPlain, at-pad, at-IsBytes, agree-cong, agree-str_eq, agree-starts_with,
}
use ferrum.Ebpf.Krules.Suffix.{agree-ends_with}
use ferrum.Ebpf.Krules.Shape.{text_of, given, slot_of, path_of, IsBits, path_of-flags}

-- A predicate that a slot can hold: plain, not empty and not longer than the slot.
abbrev pub IsHeld : ℕ → Option Str → Type 0
IsHeld limit none = Unit
IsHeld limit (some bytes) = IsPlain bytes × (is_empty bytes ≡ false) × (length bytes ≤ limit)

-- The three tests of the evaluator, of one predicate each.
abbrev pub comm_test : Str → Option Str → Bool
comm_test comm none = true
comm_test comm (some bytes) = str_eq bytes comm

abbrev pub prefix_test : Str → Bool → Option Str → Bool
prefix_test path truncated none = true
prefix_test path truncated (some bytes) = starts_with path bytes || (truncated && is_empty path)

abbrev pub suffix_test : Str → Bool → Option Str → Bool
suffix_test path truncated none = true
suffix_test path truncated (some bytes) = ends_with path bytes || truncated

pub held_length : (limit : ℕ) (o : Option Str) → IsHeld limit o → length (text_of o) ≤ limit
held_length limit none h = omega arith
held_length limit (some bytes) h = h.2

held-IsPlain : (limit : ℕ) (o : Option Str) → IsHeld limit o → IsPlain (text_of o)
held-IsPlain limit none h = tt
held-IsPlain limit (some bytes) h = h.0

pub ≤→leb : (limit len : ℕ) → len ≤ limit → leb len limit ≡ true
≤→leb limit len h = ground (arith, h)

length_of_text : (s : Str) → (length s == 0) ≡ is_empty s
length_of_text [] = refl
length_of_text (b ∷ s) = zero_test (length s)
  where
    zero_test : (n : ℕ) → (suc n == 0) ≡ false
    zero_test n = ground arith

padded : (k : ℕ) (s : Str) → All (λ b. b < 256) s → IsBytes (at (filled k s))
padded k s h i = subst (λ b. b < 256) (sym (at-pad s (k - length s) i)) (at-IsBytes s h i)

pub filled-IsBytes : (k : ℕ) (s : Str) → IsPlain s → IsBytes (at (filled k s))
filled-IsBytes k s h =
    padded k s (All-map (λ b. ((b == 0) ≡ false) × (b < 256)) (λ b. b < 256) (λ b e. e.1) s h)

agree-filled :
    (s t : Str) (k m n : ℕ)
    → agree (at (filled k s)) (at (filled m t)) n 0 ≡ agree (at s) (at t) n 0
agree-filled s t k m n =
    agree-cong (at (filled k s)) (at s) (at (filled m t)) (at t) n 0
      (λ j h. at-pad s (k - length s) j) (λ j h. at-pad t (m - length t) j)

pub comm_ok-comm_test :
    (action flags : ℕ) (c p s : Option Str) (comm : Str)
    → IsHeld 15 c
    → IsPlain comm
    → length comm ≤ comm_len
    → comm_ok (slot_of action flags c p s) (filled comm_len comm) ≡ comm_test comm c
comm_ok-comm_test action flags none p s comm h plain le = ground arith
comm_ok-comm_test action flags (some bytes) p s comm h plain le =
    join _ _ _
      (agree-filled bytes comm comm_len comm_len comm_len
        ∙ agree-str_eq comm_len bytes comm h.0 plain (omega (arith, h.2)) le)
      (length_of_text bytes ∙ h.1)
  where
    join : (a b e : Bool) → a ≡ b → e ≡ false → (a || not (not e)) ≡ b
    join a b e f g = ground (arith, f, g)

pub starts_ok-prefix_test :
    (action flags : ℕ) (so co na : Bool) (c p s : Option Str) (path : Str) (t : Bool)
    → IsHeld kpath_len p
    → IsBits flags so co na (given p) (given s)
    → starts_ok (slot_of action flags c p s) (path_of path t) ≡ prefix_test path t p
starts_ok-prefix_test action flags so co na c none s path t h b = absent _ _ _ b.prefix
  where
    absent : (f x y : Bool) → f ≡ false → ((not f || x) || y) ≡ true
    absent f x y e = ground (arith, e)
starts_ok-prefix_test action flags so co na c (some bytes) s path t h b =
    join _ _ _ _ _ _ _ _ _ b.prefix
      (agree-min bytes path (whole bytes h.2)
        ∙ agree-filled bytes path kpath_len path_len (length bytes)
        ∙ agree-starts_with bytes path h.0)
      (length_of_text bytes ∙ h.1) (≤→leb kpath_len (length bytes) h.2) (path_of-flags t).1
      (length_of_text path)
  where
    whole : (bytes : Str) → length bytes ≤ kpath_len → min (length bytes) kpath_len ≡ length bytes
    whole bytes le = omega (arith, le)

    agree-min :
        (bytes path : Str)
        → min (length bytes) kpath_len ≡ length bytes
        → agree
            (at (filled kpath_len bytes))
            (at (filled path_len path))
            (min (length bytes) kpath_len)
            0
          ≡ agree (at (filled kpath_len bytes)) (at (filled path_len path)) (length bytes) 0
    agree-min bytes path e =
        ap (λ n. agree (at (filled kpath_len bytes)) (at (filled path_len path)) n 0) e

    join :
        (f a n w tf e t u v : Bool)
        → f ≡ true
        → a ≡ u
        → n ≡ false
        → w ≡ true
        → tf ≡ t
        → e ≡ v
        → ((not f || ((a && not n) && w)) || (tf && not (not e))) ≡ (u || (t && v))
    join f a n w tf e t u v p q r o x y = ground (arith, p, q, r, o, x, y)

pub ends_ok-suffix_test :
    (action flags : ℕ) (so co na : Bool) (c p s : Option Str) (path : Str) (t : Bool)
    → IsHeld kpath_len s
    → length path < path_len
    → IsBits flags so co na (given p) (given s)
    → ends_ok (slot_of action flags c p s) (path_of path t) ≡ suffix_test path t s
ends_ok-suffix_test action flags so co na c p none path t h short b = absent _ _ _ b.suffix
  where
    absent : (f x y : Bool) → f ≡ false → ((not f || x) || y) ≡ true
    absent f x y e = ground (arith, e)
ends_ok-suffix_test action flags so co na c p (some bytes) path t h short b =
    join _ _ _ _ _ _ _ _ _ b.suffix
      (ap (λ n. agree (at (filled kpath_len bytes)) (tail bytes path) n 0) (whole bytes h.2)
        ∙ agree-cong (at (filled kpath_len bytes)) (at bytes) (tail bytes path)
            (λ i. at path (tail_at (sub_u16 (length path) (length bytes)) i)) (length bytes) 0
            (λ j e. at-pad bytes (kpath_len - length bytes) j)
            (λ j e.
              at-pad path (path_len - length path)
                (tail_at (sub_u16 (length path) (length bytes)) j)))
      (agree-ends_with bytes path h.0 short) (length_of_text bytes ∙ h.1)
      (≤→leb kpath_len (length bytes) h.2) (path_of-flags t).1
  where
    whole : (bytes : Str) → length bytes ≤ kpath_len → min (length bytes) kpath_len ≡ length bytes
    whole bytes le = omega (arith, le)

    tail : Str → Str → ℕ → ℕ
    tail bytes path i = at (filled path_len path) (tail_at (sub_u16 (length path) (length bytes)) i)

    join :
        (f a n l w tf t u v : Bool)
        → f ≡ true
        → a ≡ v
        → (v && l) ≡ u
        → n ≡ false
        → w ≡ true
        → tf ≡ t
        → ((not f || (((a && not n) && l) && w)) || tf) ≡ (u || t)
    join f a n l w tf t u v p q x r o y = ground (arith, p, q, x, r, o, y)

pub slot_of-IsSlot :
    (action flags : ℕ) (c p s : Option Str)
    → flags < 256
    → IsHeld 15 c
    → IsHeld kpath_len p
    → IsHeld kpath_len s
    → IsSlot (slot_of action flags c p s)
slot_of-IsSlot action flags c p s f hc hp hs = record {
  flags = f;
  comm_len = omega (arith, held_length 15 c hc);
  prefix_len = omega (arith, held_length kpath_len p hp);
  suffix_len = omega (arith, held_length kpath_len s hs);
  comm = filled-IsBytes comm_len (text_of c) (held-IsPlain 15 c hc);
  prefix = filled-IsBytes kpath_len (text_of p) (held-IsPlain kpath_len p hp);
  suffix = filled-IsBytes kpath_len (text_of s) (held-IsPlain kpath_len s hs);
}

pub path_of-IsPath :
    (path : Str) (t : Bool)
    → All (λ b. b < 256) path
    → length path < path_len
    → IsPath (path_of path t)
path_of-IsPath path t bytes short = record {
  flags = (path_of-flags t).2;
  len = omega (arith, short);
  bytes = padded path_len path bytes;
}
