-- ===== src/Labels.antt =====
-- `BTreeMap<String, String>`: an association list in the order of its keys, each key once.
pub mod Laws
use ferrum.Prelude.{Option, none, some, Bool, true, false, List, [], ◌∷◌, if◌then◌else◌}
use ferrum.Text.{Str, str_eq, str_lt}

abbrev pub Labels : Type 0
Labels = List (Str × Str)

unfoldable pub get : Labels → Str → Option Str
get [] key = none
get ((k, v) ∷ m) key = if str_eq k key then some v else get m key

unfoldable pub contains_key : Labels → Str → Bool
unfolding get
contains_key m key = elim (get m key) [ none ↦ false | some v ↦ true ]

unfoldable pub insert : Str → Str → Labels → Labels
insert key value [] = (key, value) ∷ []
insert key value ((k, v) ∷ m) =
    if str_eq k key
    then (key, value) ∷ m
    else if str_lt key k
    then (key, value) ∷ (k, v) ∷ m
    else (k, v) ∷ insert key value m
