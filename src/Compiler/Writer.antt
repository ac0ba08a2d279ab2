-- ===== src/Compiler/Writer.antt =====
-- crates/ferrum-compiler/src/encode.rs, `Writer`: the state is the bytes written so far.
use ferrum.Prelude.{
  ℕ, zero, suc, ◌/◌, ◌%◌, Bool, true, false, List, [], ◌∷◌, ◌++◌, length, ltb, if◌then◌else◌,
}
use ferrum.Text.{Str}
use ferrum.Error.{Message, Result, ok, err, compile, ◌>>=◌}

unfoldable pub put_magic : Str → Str → Str
put_magic magic w = w ++ magic

unfoldable pub put_u8 : ℕ → Str → Str
put_u8 v w = w ++ (v ∷ [])

-- `to_le_bytes`, of as many bytes as the type has.
unfoldable pub to_le_bytes : ℕ → ℕ → Str
to_le_bytes zero v = []
to_le_bytes (suc n) v = (v % 256) ∷ to_le_bytes n (v / 256)

unfoldable pub put_u16 : ℕ → Str → Str
unfolding to_le_bytes
put_u16 v w = w ++ to_le_bytes 2 v

unfoldable pub put_u32 : ℕ → Str → Str
unfolding to_le_bytes
put_u32 v w = w ++ to_le_bytes 4 v

-- Of the bit pattern of the `i32`.
unfoldable pub put_i32 : ℕ → Str → Str
unfolding to_le_bytes
put_i32 v w = w ++ to_le_bytes 4 v

abbrev pub bool_byte : Bool → ℕ
bool_byte true = 1
bool_byte false = 0

unfoldable pub put_bool : Bool → Str → Str
unfolding put_u8
put_bool v w = put_u8 (bool_byte v) w

abbrev pub u16_max : ℕ
u16_max = 65535

-- `u16::try_from(n)`, with the error that the caller maps it to.
abbrev pub u16_from : ℕ → (ℕ → Message) → Result ℕ
u16_from n message = if ltb u16_max n then err (compile (message n)) else ok n

unfoldable pub put_str : Str → Str → Result Str
unfolding put_u16
put_str s w = u16_from (length s) Message.long_string >>= λ len. ok (put_u16 len w ++ s)

-- `for item in items { put(item)? }`.
unfoldable pub put_each {ℓ} : {A : Type ℓ} → (A → Str → Result Str) → List A → Str → Result Str
put_each put [] w = ok w
put_each put (x ∷ xs) w = put x w >>= λ w'. put_each put xs w'

unfoldable pub put_str_list : List Str → Str → Result Str
unfolding put_u16 put_str put_each
put_str_list items w =
    u16_from (length items) Message.long_list >>= λ count. put_each put_str items (put_u16 count w)
