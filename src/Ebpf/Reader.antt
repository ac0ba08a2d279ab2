-- ===== src/Ebpf/Reader.antt =====
-- crates/ferrum-ebpf/src/spec.rs, `Reader`. The state is the part of the buffer from `pos` on:
-- a read takes its bytes off the front.
use ferrum.Prelude.{
  ℕ, zero, suc, ◌+◌, ◌*◌, Bool, true, false, List, [], ◌∷◌, length, take as first, drop, ltb,
  if◌then◌else◌, get_or,
}
use ferrum.Text.{Str, str_eq, is_utf8}
use ferrum.Error.{Message, FerrumError, Result, ok, err, compile}

abbrev pub Read : Type 0 → Type 0
Read A = Str → Result (A × Str)

infixl 5 ◌>>=◌ ◌>>◌
abbrev pub ◌>>=◌ : {A B : Type 0} → Read A → (A → Read B) → Read B
◌>>=◌ m f s = elim (m s) [ ok (a, s') ↦ f a s' | err e ↦ err e ]

abbrev pub ◌>>◌ : {B : Type 0} → Read (Unit {0}) → Read B → Read B
m >> k = m >>= λ _. k

abbrev pub pure : {A : Type 0} → A → Read A
pure a s = ok (a, s)

abbrev pub fail : {A : Type 0} → FerrumError → Read A
fail e s = err e

-- A `Result` in the midst of reads.
abbrev pub lift : {A : Type 0} → Result A → Read A
lift r s = elim r [ ok a ↦ ok (a, s) | err e ↦ err e ]

unfoldable pub take : ℕ → Read Str
take n s = if ltb (length s) n then err (compile Message.truncated) else ok (first n s, drop n s)

unfoldable pub expect_magic : Str → Read (Unit {0})
unfolding take str_eq
expect_magic magic = do
  got ← take 4
  if str_eq got magic then pure tt else fail (compile Message.bad_magic)

unfoldable pub u8 : Read ℕ
unfolding take
u8 = do bytes ← take 1; pure (get_or bytes 0 0)

-- `from_le_bytes`.
unfoldable pub from_le_bytes : Str → ℕ
from_le_bytes [] = 0
from_le_bytes (b ∷ s) = b + 256 * from_le_bytes s

unfoldable pub u16 : Read ℕ
unfolding take from_le_bytes
u16 = do bytes ← take 2; pure (from_le_bytes bytes)

unfoldable pub u32 : Read ℕ
unfolding take from_le_bytes
u32 = do bytes ← take 4; pure (from_le_bytes bytes)

-- The bit pattern of the `i32`.
unfoldable pub i32 : Read ℕ
unfolding take from_le_bytes
i32 = do bytes ← take 4; pure (from_le_bytes bytes)

abbrev pub bool_of : ℕ → Result Bool
bool_of zero = ok false
bool_of (suc zero) = ok true
bool_of other = err (compile (Message.invalid_bool other))

unfoldable pub bool : Read Bool
unfolding u8
bool = do b ← u8; lift (bool_of b)

unfoldable pub string : Read Str
unfolding u16 take is_utf8
string = do
  len ← u16
  bytes ← take len
  if is_utf8 bytes then pure bytes else fail (compile Message.non_utf8)

-- `for _ in 0..count { out.push(item(r)?) }`.
unfoldable pub repeat : {A : Type 0} → ℕ → Read A → Read (List A)
repeat zero item = pure []
repeat (suc n) item = do x ← item; xs ← repeat n item; pure (x ∷ xs)

unfoldable pub str_list : Read (List Str)
unfolding u16 string repeat
str_list = do count ← u16; repeat count string

unfoldable pub finish : Read (Unit {0})
finish [] = ok (tt, [])
finish (b ∷ s) = err (compile Message.trailing)
