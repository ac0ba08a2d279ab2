-- ===== src/Compiler/Ends.antt =====
-- A writer of a whole file against its reader: the reader ends where the bytes end.
use ferrum.Prelude.{
  ℕ, ◌≤◌, ◌≡◌, refl, sym, ap, ◌∙◌, [], ◌++◌, append-nil, append_assoc, if◌then◌else◌,
}
use ferrum.Text.{Str, str_eq}
use ferrum.Error.{Message, Result, ok, compile}
use ferrum.Error.{◌>>=◌ as ◌>>>◌}
use ferrum.Ebpf.Reader.{Read, ◌>>=◌, ◌>>◌, pure, fail, lift, take, expect_magic, finish}
use ferrum.Ebpf.Decode.{ebpf_magic}
use ferrum.Compiler.Writer.{put_magic, u16_max, u16_from}
use ferrum.Compiler.Carries.{Carries, take-bytes, >>=-ok, u16_from-ok}

pub record Ends {A : Type 0} (put : Str → Result Str) (get : Read A) (a : A) : Type 0 where
  pub bytes : Str
  pub writes : (w : Str) → put w ≡ ok (w ++ bytes)
  pub reads : get bytes ≡ ok (a, [])

module _ {A B : Type 0} where
  pub Ends-seq :
      (f g : Str → Result Str) (m : Read A) (k : A → Read B) (a : A) (b : B)
      → Carries f m a
      → Ends g (k a) b
      → Ends (λ w. f w >>> g) (m >>= k) b
  Ends-seq f g m k a b c d = record {
    bytes = c.bytes ++ d.bytes;
    writes =
        λ w. rw (c.writes w) (d.writes (w ++ c.bytes) ∙ ap ok (append_assoc w c.bytes d.bytes));
    reads = >>=-ok m k (c.bytes ++ d.bytes) d.bytes a (c.reads d.bytes) ∙ d.reads;
  }

  -- The last reader, behind which the buffer ends.
  pub Ends-last :
      (f : Str → Result Str) (m : Read A) (h : A → B) (a : A)
      → Carries f m a
      → Ends f (m >>= λ x. finish >> pure (h x)) (h a)
  unfolding finish
  Ends-last f m h a c = record {
    bytes = c.bytes;
    writes = c.writes;
    reads =
        ap (m >>= λ x. finish >> pure (h x)) (sym (append-nil c.bytes))
        ∙ >>=-ok m (λ x. finish >> pure (h x)) (c.bytes ++ []) [] a (c.reads []);
  }

  pub Ends-lift :
      (f : Str → Result Str) (r : Result A) (k : A → Read B) (a : A) (b : B)
      → r ≡ ok a
      → Ends f (k a) b
      → Ends f (lift r >>= k) b
  Ends-lift f r k a b e c = record {
    bytes = c.bytes;
    writes = c.writes;
    reads = >>=-ok (lift r) k c.bytes c.bytes a (rw e) ∙ c.reads;
  }

-- Of a read whose value is not used.
pub Ends-then :
    {B : Type 0} (f g : Str → Result Str) (m : Read (Unit {0})) (k : Read B) (b : B)
    → Carries f m tt
    → Ends g k b
    → Ends (λ w. f w >>> g) (m >> k) b
Ends-then f g m k b c d = Ends-seq f g m (λ _. k) tt b c d

-- Of a check whose value is not used.
pub Ends-check :
    {B : Type 0} (f : Str → Result Str) (r : Result (Unit {0})) (k : Read B) (b : B)
    → r ≡ ok tt
    → Ends f k b
    → Ends f (lift r >> k) b
Ends-check f r k b e c = Ends-lift f r (λ _. k) tt b e c

pub Ends-count :
    {A : Type 0} (n : ℕ) (message : ℕ → Message) (g : ℕ → Str → Result Str) (m : Read A) (a : A)
    → n ≤ u16_max
    → Ends (g n) m a
    → Ends (λ w. u16_from n message >>> λ count. g count w) m a
Ends-count n message g m a le c = record {
  bytes = c.bytes;
  writes = λ w. u16_from-ok n message (λ count. g count w) le ∙ c.writes w;
  reads = c.reads;
}

pub Carries-magic : Carries (λ w. ok (put_magic ebpf_magic w)) (expect_magic ebpf_magic) tt
unfolding put_magic expect_magic str_eq
Carries-magic = record {
  bytes = ebpf_magic;
  writes = λ w. refl;
  reads = λ rest.
      >>=-ok (take 4)
        (λ got. if str_eq got ebpf_magic then pure tt else fail (compile Message.bad_magic))
        (ebpf_magic ++ rest) rest ebpf_magic (take-bytes 4 ebpf_magic rest refl)
      ∙ refl;
}
