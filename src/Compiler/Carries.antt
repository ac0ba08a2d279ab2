-- ===== src/Compiler/Carries.antt =====
-- A writer of the compiler against a reader of the loader: what the one writes, the other reads
-- back, whatever stands around it.
use ferrum.Prelude.{
  ℕ, zero, suc, ◌/◌, ◌^◌, ◌≤◌, ◌<◌, ◌≡◌, refl, sym, ap, ◌∙◌, Bool, true, false, List, [], ◌∷◌, ◌++◌,
  append-nil, append_assoc, length, All, map, arith, if◌then◌else◌, take-append, drop-append,
  length-append, take as first, drop, get_or, subst, All-map,
}
use ferrum.Text.{Str, is_utf8}
use ferrum.Error.{Message, Result, ok, err, compile}
use ferrum.Error.{◌>>=◌ as ◌>>>◌}
use ferrum.Ebpf.Reader.{
  Read, ◌>>=◌, pure, fail, lift, take, u8, u16, u32, i32, from_le_bytes, bool, string, repeat,
  str_list, bool_of,
}
use ferrum.Compiler.Writer.{
  put_u8, put_u16, put_u32, put_i32, put_bool, to_le_bytes, u16_max, u16_from, put_str, put_each,
  put_str_list,
}

pub record Carries {A : Type 0} (put : Str → Result Str) (get : Read A) (a : A) : Type 0 where
  pub bytes : Str
  pub writes : (w : Str) → put w ≡ ok (w ++ bytes)
  pub reads : (rest : Str) → get (bytes ++ rest) ≡ ok (a, rest)

-- A read that succeeds hands its value on.
pub >>=-ok :
    {A B : Type 0} (m : Read A) (k : A → Read B) (s s' : Str) (a : A)
    → m s ≡ ok (a, s')
    → (m >>= k) s ≡ k a s'
>>=-ok m k s s' a e = rw (e, ◌>>=◌)

pub u16_from-ok :
    {B : Type 0} (n : ℕ) (message : ℕ → Message) (h : ℕ → Result B)
    → n ≤ u16_max
    → (u16_from n message >>> h) ≡ h n
u16_from-ok n message h le = ground arith

-- A count in front, which fits its 16 bits.
pub Carries-count :
    {A : Type 0} (n : ℕ) (message : ℕ → Message) (g : ℕ → Str → Result Str) (m : Read A) (a : A)
    → n ≤ u16_max
    → Carries (g n) m a
    → Carries (λ w. u16_from n message >>> λ count. g count w) m a
Carries-count n message g m a le c = record {
  bytes = c.bytes;
  writes = λ w. u16_from-ok n message (λ count. g count w) le ∙ c.writes w;
  reads = c.reads;
}

-- The other bracketing of three writers.
pub Carries-assoc :
    {A : Type 0} (f g h : Str → Result Str) (m : Read A) (a : A)
    → Carries (λ w. f w >>> λ w'. (g w' >>> h)) m a
    → Carries (λ w. (f w >>> g) >>> h) m a
Carries-assoc f g h m a c = record {
  bytes = c.bytes;
  writes = λ w. sym (assoc (f w)) ∙ c.writes w;
  reads = c.reads;
}
  where
    assoc : (r : Result Str) → (r >>> λ w'. (g w' >>> h)) ≡ ((r >>> g) >>> h)
    assoc (ok w) = refl
    assoc (err e) = refl

-- Nothing is written, and a value is made up.
pub Carries-pure : {A : Type 0} (a : A) → Carries ok (pure a) a
Carries-pure a = record {
  bytes = [];
  writes = λ w. ap ok (sym (append-nil w));
  reads = λ rest. refl;
}

module _ {A B : Type 0} where
  -- One after the other.
  pub Carries-seq :
      (f g : Str → Result Str) (m : Read A) (k : A → Read B) (a : A) (b : B)
      → Carries f m a
      → Carries g (k a) b
      → Carries (λ w. f w >>> g) (m >>= k) b
  Carries-seq f g m k a b c d = record {
    bytes = c.bytes ++ d.bytes;
    writes =
        λ w. rw (c.writes w) (d.writes (w ++ c.bytes) ∙ ap ok (append_assoc w c.bytes d.bytes));
    reads = λ rest. rw (append_assoc c.bytes d.bytes rest) (
        >>=-ok m k (c.bytes ++ (d.bytes ++ rest)) (d.bytes ++ rest) a (c.reads (d.bytes ++ rest))
        ∙ d.reads rest);
  }

  -- The last reader of a block, whose value is only put into a record.
  pub Carries-last :
      (f : Str → Result Str) (m : Read A) (h : A → B) (a : A)
      → Carries f m a
      → Carries f (m >>= λ x. pure (h x)) (h a)
  Carries-last f m h a c = record {
    bytes = c.bytes;
    writes = c.writes;
    reads = λ rest. >>=-ok m (λ x. pure (h x)) (c.bytes ++ rest) rest a (c.reads rest);
  }

pub le-to_le_bytes_2 : (v : ℕ) → v < 65536 → from_le_bytes (to_le_bytes 2 v) ≡ v
unfolding from_le_bytes to_le_bytes
le-to_le_bytes_2 v h = omega arith

pub le-to_le_bytes_4 : (v : ℕ) → v < 2 ^ 32 → from_le_bytes (to_le_bytes 4 v) ≡ v
unfolding from_le_bytes to_le_bytes
le-to_le_bytes_4 v h = omega arith

pub length-to_le_bytes : (n v : ℕ) → length (to_le_bytes n v) ≡ n
unfolding to_le_bytes
length-to_le_bytes zero v = refl
length-to_le_bytes (suc n) v = ap suc (length-to_le_bytes n (v / 256))

take_fits : (n : ℕ) (s : Str) → n ≤ length s → take n s ≡ ok (first n s, drop n s)
unfolding take
take_fits n s h = ground arith

-- `take` gives back as many bytes as were written.
pub take-bytes :
    (n : ℕ) (bytes rest : Str) → length bytes ≡ n → take n (bytes ++ rest) ≡ ok (bytes, rest)
take-bytes n bytes rest e = rw (← e) (
    take_fits (length bytes) (bytes ++ rest) (omega (arith, length-append bytes rest))
    ∙ rw (take-append bytes rest, drop-append bytes rest))

-- A total writer of bytes whose number the reader knows.
Carries-take :
    {A : Type 0} (put : Str → Str) (n : ℕ) (bytes : Str) (h : Str → A)
    → length bytes ≡ n
    → ((w : Str) → put w ≡ w ++ bytes)
    → Carries (λ w. ok (put w)) (take n >>= λ got. pure (h got)) (h bytes)
Carries-take put n bytes h e written = record {
  bytes = bytes;
  writes = λ w. ap ok (written w);
  reads = λ rest.
      >>=-ok (take n) (λ got. pure (h got)) (bytes ++ rest) rest bytes (take-bytes n bytes rest e);
}

pub Carries-u8 : (v : ℕ) → Carries (λ w. ok (put_u8 v w)) u8 v
unfolding put_u8 u8
Carries-u8 v = Carries-take (put_u8 v) 1 (v ∷ []) (λ got. get_or got 0 0) refl (λ w. refl)

pub Carries-u16 : (v : ℕ) → v ≤ u16_max → Carries (λ w. ok (put_u16 v w)) u16 v
unfolding put_u16 u16
Carries-u16 v h =
    subst (λ a. Carries (λ w. ok (put_u16 v w)) u16 a) (le-to_le_bytes_2 v (omega arith))
      (Carries-take (put_u16 v) 2 (to_le_bytes 2 v) from_le_bytes (length-to_le_bytes 2 v)
        (λ w. refl))

pub Carries-u32 : (v : ℕ) → v < 2 ^ 32 → Carries (λ w. ok (put_u32 v w)) u32 v
unfolding put_u32 u32
Carries-u32 v h =
    subst (λ a. Carries (λ w. ok (put_u32 v w)) u32 a) (le-to_le_bytes_4 v h)
      (Carries-take (put_u32 v) 4 (to_le_bytes 4 v) from_le_bytes (length-to_le_bytes 4 v)
        (λ w. refl))

pub Carries-i32 : (v : ℕ) → v < 2 ^ 32 → Carries (λ w. ok (put_i32 v w)) i32 v
unfolding put_i32 i32
Carries-i32 v h =
    subst (λ a. Carries (λ w. ok (put_i32 v w)) i32 a) (le-to_le_bytes_4 v h)
      (Carries-take (put_i32 v) 4 (to_le_bytes 4 v) from_le_bytes (length-to_le_bytes 4 v)
        (λ w. refl))

Carries-bool_byte : (n : ℕ) (v : Bool) → bool_of n ≡ ok v → Carries (λ w. ok (put_u8 n w)) bool v
unfolding bool
Carries-bool_byte n v e =
    let c = Carries-u8 n in
    record {
      bytes = c.bytes;
      writes = c.writes;
      reads = λ rest.
          >>=-ok u8 (λ b. lift (bool_of b)) (c.bytes ++ rest) rest n (c.reads rest) ∙ rw (e, lift);
    }

pub Carries-bool : (v : Bool) → Carries (λ w. ok (put_bool v w)) bool v
unfolding put_bool
Carries-bool true = Carries-bool_byte 1 true refl
Carries-bool false = Carries-bool_byte 0 false refl

-- A check of a value that was read, which passes.
pub Carries-lift :
    {A B : Type 0} (f : Str → Result Str) (r : Result A) (k : A → Read B) (a : A) (b : B)
    → r ≡ ok a
    → Carries f (k a) b
    → Carries f (lift r >>= k) b
Carries-lift f r k a b e c = record {
  bytes = c.bytes;
  writes = c.writes;
  reads = λ rest. >>=-ok (lift r) k (c.bytes ++ rest) (c.bytes ++ rest) a (rw e) ∙ c.reads rest;
}

-- A Rust string that fits a 16-bit length.
pub record IsText (s : Str) : Type 0 where
  pub fits : length s ≤ u16_max
  pub utf8 : is_utf8 s ≡ true

put_bytes : Str → Str → Str
put_bytes s w = w ++ s

Carries-bytes : (s : Str) → Carries (λ w. ok (put_bytes s w)) (take (length s)) s
unfolding put_bytes
Carries-bytes s = record {
  bytes = s;
  writes = λ w. refl;
  reads = λ rest. take-bytes (length s) s rest refl;
}

Carries-utf8 :
    (s : Str)
    → is_utf8 s ≡ true
    → Carries
        (λ w. ok (put_bytes s w))
        (take (length s) >>= λ bytes.
          if is_utf8 bytes then pure bytes else fail (compile Message.non_utf8))
        s
Carries-utf8 s h =
    let c = Carries-bytes s in
    record {
      bytes = c.bytes;
      writes = c.writes;
      reads = λ rest.
          >>=-ok (take (length s))
            (λ bytes. if is_utf8 bytes then pure bytes else fail (compile Message.non_utf8))
            (c.bytes ++ rest) rest s (c.reads rest)
          ∙ checked rest;
    }
  where
    checked :
        (rest : Str)
        → (if is_utf8 s then pure s else fail (compile Message.non_utf8)) rest ≡ ok (s, rest)
    checked rest = rw h

pub Carries-string : (s : Str) → IsText s → Carries (put_str s) string s
unfolding put_str string put_bytes
Carries-string s t =
    Carries-count (length s) Message.long_string (λ len w. ok (put_u16 len w ++ s)) string s t.fits
      (Carries-seq (λ w. ok (put_u16 (length s) w)) (λ w. ok (put_bytes s w)) u16
        (λ len. take len >>= λ bytes.
          if is_utf8 bytes then pure bytes else fail (compile Message.non_utf8))
        (length s) s (Carries-u16 (length s) t.fits) (Carries-utf8 s t.utf8))

-- A loop over a list, against as many rounds of the reader.
pub Carries-each :
    {A B : Type 0} (put : A → Str → Result Str) (get : Read B) (h : A → B) (xs : List A)
    → All (λ x. Carries (put x) get (h x)) xs
    → Carries (put_each put xs) (repeat (length xs) get) (map h xs)
unfolding put_each repeat
Carries-each put get h [] c = record {
  bytes = [];
  writes = λ w. rw append-nil refl;
  reads = λ rest. refl;
}
Carries-each put get h (x ∷ xs) c =
    Carries-seq (put x) (put_each put xs) get (λ y. repeat (length xs) get >>= λ ys. pure (y ∷ ys))
      (h x) (h x ∷ map h xs) c.0
      (Carries-last (put_each put xs) (repeat (length xs) get) (λ ys. h x ∷ ys) (map h xs)
        (Carries-each put get h xs c.1))

-- A list that fits a 16-bit count, of such strings.
pub record IsTexts (xs : List Str) : Type 0 where
  pub count_fits : length xs ≤ u16_max
  pub texts : All IsText xs

map_id {ℓ} : {A : Type ℓ} (xs : List A) → map (λ x. x) xs ≡ xs
map_id [] = refl
map_id (x ∷ xs) = ap (◌∷◌ x) (map_id xs)

pub Carries-str_list : (xs : List Str) → IsTexts xs → Carries (put_str_list xs) str_list xs
unfolding put_str_list str_list
Carries-str_list xs t =
    Carries-count (length xs) Message.long_list (λ count w. put_each put_str xs (put_u16 count w))
      str_list xs t.count_fits
      (Carries-seq (λ w. ok (put_u16 (length xs) w)) (put_each put_str xs) u16
        (λ count. repeat count string) (length xs) xs (Carries-u16 (length xs) t.count_fits)
        (subst (Carries (put_each put_str xs) (repeat (length xs) string)) (map_id xs) (
          Carries-each put_str string (λ x. x) xs
            (All-map IsText (λ x. Carries (put_str x) string x) Carries-string xs t.texts))))
