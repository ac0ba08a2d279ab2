-- ===== src/Datapath/Slot/Diff.antt =====
-- crates/ferrum-ebpf-progs/src/lib.rs: the accumulated difference is zero where the bytes agree.
use ferrum.Prelude.{
  ℕ, zero, suc, ◌<◌, ◌≡◌, refl, Bool, true, false, ◌&&◌, ◌||◌, not, ◌==◌, ltb, &&_iff, ==_iff,
  ltb_iff, leb, ◌∙◌, ap, bit_and, bit_or, bit_xor, arith,
}
use ferrum.Prelude.Bits.{table, table-holds}
use ferrum.Datapath.Slot.{diff_loop, as_u8, nonzero, fits, kpath_len}
use ferrum.Datapath.Record.{comm_len}

abbrev same : Bool → Bool → Bool
same true b = b
same false b = not b

-- Of two bytes: what `diff | a ^ b` may be, and when it is zero.
step_test : ℕ → ℕ → Bool
step_test x y =
    (ltb (bit_xor x y) 256 && ltb (bit_or x y) 256)
    && (same (bit_xor x y == 0) (x == y) && same (bit_or x y == 0) (x == 0 && y == 0))

step_table : table 256 (λ x. table 256 (step_test x)) ≡ true
unfolding step_test
step_table = refl

-- What the table says of two bytes.
xor_or :
    (x y : ℕ)
    → x < 256
    → y < 256
    → (bit_xor x y < 256)
      × (bit_or x y < 256)
      × ((bit_xor x y == 0) ≡ (x == y))
      × ((bit_or x y == 0) ≡ (x == 0 && y == 0))
unfolding step_test
xor_or x y hx hy =
    read (bit_xor x y) (bit_or x y) (bit_xor x y == 0) (x == y) (bit_or x y == 0) (x == 0 && y == 0)
      (table-holds 256 (step_test x) y
        (table-holds 256 (λ x. table 256 (step_test x)) x step_table hx) hy)
  where
    same-≡ : (a b : Bool) → same a b ≡ true → a ≡ b
    same-≡ true b h = ground (arith, h)
    same-≡ false b h = ground (arith, h)

    read :
        (m n : ℕ) (a b c d : Bool)
        → ((ltb m 256 && ltb n 256) && (same a b && same c d)) ≡ true
        → (m < 256) × (n < 256) × (a ≡ b) × (c ≡ d)
    read m n a b c d h =
        let (small, agree) = (&&_iff (ltb m 256 && ltb n 256) (same a b && same c d)).0 h in
        let (sm, sn) = (&&_iff (ltb m 256) (ltb n 256)).0 small in
        let (ab, cd) = (&&_iff (same a b) (same c d)).0 agree in
        ((ltb_iff m 256).0 sm, (ltb_iff n 256).0 sn, same-≡ a b ab, same-≡ c d cd)

-- The bytes of two buffers agree in so many places from one on.
unfoldable pub agree : (ℕ → ℕ) → (ℕ → ℕ) → ℕ → ℕ → Bool
agree a b zero i = true
agree a b (suc rounds) i = a i == b i && agree a b rounds (suc i)

abbrev pub IsBytes : (ℕ → ℕ) → Type 0
IsBytes a = (i : ℕ) → a i < 256

pub diff_loop-agree :
    (a b : ℕ → ℕ) (rounds i diff : ℕ)
    → IsBytes a
    → IsBytes b
    → diff < 256
    → (diff_loop a b rounds i diff < 256)
      × ((diff_loop a b rounds i diff == 0) ≡ (diff == 0 && agree a b rounds i))
unfolding diff_loop agree
diff_loop-agree a b zero i diff ha hb h = (h, ground arith)
diff_loop-agree a b (suc rounds) i diff ha hb h =
    let (x_small, _, x_zero, _) = xor_or (a i) (b i) (ha i) (hb i) in
    let (_, o_small, _, o_zero) = xor_or diff (bit_xor (a i) (b i)) h x_small in
    let (small, zeros) =
      diff_loop-agree a b rounds (suc i) (bit_or diff (bit_xor (a i) (b i))) ha hb o_small in
    (small, zeros ∙ join _ _ _ _ _ o_zero x_zero)
  where
    join : (o d x e g : Bool) → o ≡ (d && x) → x ≡ e → (o && g) ≡ (d && (e && g))
    join o d x e g f k = ground (arith, f, k)

nonzero-table : table 256 (λ x. nonzero x == as_u8 (not (x == 0))) ≡ true
unfolding nonzero
nonzero-table = refl

pub nonzero_lem : (x : ℕ) → x < 256 → nonzero x ≡ as_u8 (not (x == 0))
nonzero_lem x h =
    (==_iff (nonzero x) (as_u8 (not (x == 0)))).0
      (table-holds 256 (λ x. nonzero x == as_u8 (not (x == 0))) x nonzero-table h)

-- `fits` is the comparison of the length with its limit, for the lengths whose excess over the
-- limit does not wrap past the top bit of a byte.
comm_table : table 145 (λ n. fits comm_len n == as_u8 (leb n comm_len)) ≡ true
comm_table = refl

kpath_table : table 193 (λ n. fits kpath_len n == as_u8 (leb n kpath_len)) ≡ true
kpath_table = refl

pub fits-comm_len : (len : ℕ) → len < 145 → fits comm_len len ≡ as_u8 (leb len comm_len)
fits-comm_len len h =
    (==_iff (fits comm_len len) (as_u8 (leb len comm_len))).0
      (table-holds 145 (λ n. fits comm_len n == as_u8 (leb n comm_len)) len comm_table h)

pub fits-kpath_len : (len : ℕ) → len < 193 → fits kpath_len len ≡ as_u8 (leb len kpath_len)
fits-kpath_len len h =
    (==_iff (fits kpath_len len) (as_u8 (leb len kpath_len))).0
      (table-holds 193 (λ n. fits kpath_len n == as_u8 (leb n kpath_len)) len kpath_table h)

pub and-as_u8 : (a b : Bool) → bit_and (as_u8 a) (as_u8 b) ≡ as_u8 (a && b)
and-as_u8 false false = refl
and-as_u8 false true = refl
and-as_u8 true false = refl
and-as_u8 true true = refl

pub or-as_u8 : (a b : Bool) → bit_or (as_u8 a) (as_u8 b) ≡ as_u8 (a || b)
or-as_u8 false false = refl
or-as_u8 false true = refl
or-as_u8 true false = refl
or-as_u8 true true = refl

pub not-as_u8 : (a : Bool) → bit_xor (as_u8 a) 1 ≡ as_u8 (not a)
not-as_u8 false = refl
not-as_u8 true = refl

-- A difference of bytes, folded to whether the buffers agree.
pub equal-agree :
    (a b : ℕ → ℕ) (rounds : ℕ)
    → IsBytes a
    → IsBytes b
    → bit_xor (nonzero (diff_loop a b rounds 0 0)) 1 ≡ as_u8 (agree a b rounds 0)
equal-agree a b rounds ha hb =
    let (small, zeros) = diff_loop-agree a b rounds 0 0 ha hb (omega arith) in
    ap (λ n. bit_xor n 1) (nonzero_lem (diff_loop a b rounds 0 0) small)
    ∙ not-as_u8 (not (diff_loop a b rounds 0 0 == 0))
    ∙ ap as_u8 (not_not _ ∙ zeros)
  where
    not_not : (a : Bool) → not (not a) ≡ a
    not_not true = refl
    not_not false = refl
