-- ===== src/Error/Laws.antt =====
-- Results taken apart.
use ferrum.Prelude.{◌≡◌, refl, Bool, true, false, if◌then◌else◌, arith, ◌≢◌}
use ferrum.Error.{FerrumError, Result, ok, err}
use ferrum.Error.{◌>>=◌ as ◌>>>◌}

pub err-ne-ok : {A : Type 0} (e : FerrumError) (a : A) → err e ≢ ok a
err-ne-ok e a h = cc

pub ok-injective : {A : Type 0} (a b : A) → ok a ≡ ok b → a ≡ b
ok-injective a b h = cc

-- Where a chain succeeds, its first step did, and so did the rest on its value.
pub >>=-eq-ok :
    {A B : Type 0} (first : Result A) (next : A → Result B) {last : B}
    → (first >>> next) ≡ ok last
    → (value : A) × (first ≡ ok value) × (next value ≡ ok last)
>>=-eq-ok (err failure) next h = absurd (err-ne-ok failure _ h)
>>=-eq-ok (ok value) next h = (value, refl, h)

pub guard-eq-ok :
    {A : Type 0} (b : Bool) (e : FerrumError) (rest : Result A) {a : A}
    → (if b then err e else rest) ≡ ok a
    → (b ≡ false) × (rest ≡ ok a)
guard-eq-ok true e rest h = absurd (ground arith)
guard-eq-ok false e rest h = (refl, h)
