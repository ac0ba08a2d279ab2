-- ===== src/Labels/Laws.antt =====
-- A map that is built by inserting its entries in the order of their keys.
use ferrum.Prelude.{◌≡◌, refl, ap, true, false, [], ◌∷◌, ◌++◌, All, arith}
use ferrum.Text.{Str, str_eq, str_lt}
use ferrum.Labels.{Labels, insert}

-- The keys ascend strictly.
abbrev pub IsSorted : Labels → Type 0
IsSorted [] = Unit {0}
IsSorted ((k, v) ∷ m) = All (λ e. str_lt k e.0 ≡ true) m × IsSorted m

str_eq_of_lt : (a b : Str) → str_lt a b ≡ true → str_eq a b ≡ false
unfolding str_lt str_eq
str_eq_of_lt [] [] h = cc
str_eq_of_lt [] (b ∷ y) h = refl
str_eq_of_lt (a ∷ x) [] h = refl
str_eq_of_lt (a ∷ x) (b ∷ y) h = ground (arith, str_eq_of_lt x y)

str_lt_asymm : (a b : Str) → str_lt a b ≡ true → str_lt b a ≡ false
unfolding str_lt
str_lt_asymm [] [] h = refl
str_lt_asymm [] (b ∷ y) h = refl
str_lt_asymm (a ∷ x) [] h = cc
str_lt_asymm (a ∷ x) (b ∷ y) h = ground (arith, str_lt_asymm x y)

-- A key above all others goes to the end.
pub insert_last :
    (k v : Str) (m : Labels) → All (λ e. str_lt e.0 k ≡ true) m → insert k v m ≡ m ++ ((k, v) ∷ [])
unfolding insert
insert_last k v [] h = refl
insert_last k v ((j, w) ∷ m) h =
    rw (str_eq_of_lt j k h.0, str_lt_asymm j k h.0) (ap (◌∷◌ (j, w)) (insert_last k v m h.1))
