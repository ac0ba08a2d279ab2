-- ===== src/Ebpf/Event/Shape.antt =====
-- crates/ferrum-ebpf/src/event.rs: what of a path reaches the evaluator.
use ferrum.Prelude.{
  ℕ, zero, suc, ◌+◌, ◌-◌, ◌≤◌, ◌<◌, ◌≡◌, refl, sym, ap, ◌∙◌, subst, ◌≢◌, ◌⊎◌, inl, inr, Bool, true,
  false, ◌&&◌, ◌||◌, [], ◌∷◌, ◌++◌, append_assoc, length, All, leb, ◌==◌, if◌then◌else◌,
  Option-cases, &&_iff, arith,
}
use ferrum.Text.{Str, lead_byte, utf8_from, is_utf8}
use ferrum.Datapath.Record.{Event, path_len, flagged_truncated}
use ferrum.Ebpf.Event.{
  SyscallArch, utf8_head, path_bytes, nul_trimmed_str, path_truncated, syscall_event,
}

-- What `bpf_probe_read_user_str` leaves in the buffer of a path without NUL: the whole path and a
-- NUL where that fits, else as much of it as leaves room for the NUL.
pub record IsCopyOf (path buf : Str) : Type 0 where
  pub no_nul : All (λ b. (b == 0) ≡ false) path
  pub copied :
      ((rest : Str) × (length path < path_len) × (buf ≡ path ++ (0 ∷ rest)))
      ⊎ ((seen lost : Str) × (path ≡ seen ++ lost)
          × (length seen + 1 ≡ path_len)
          × (buf ≡ seen ++ (0 ∷ [])))

pub path_bytes-nul :
    (s rest : Str) → All (λ b. (b == 0) ≡ false) s → path_bytes (s ++ (0 ∷ rest)) ≡ s
unfolding path_bytes
path_bytes-nul [] rest h = refl
path_bytes-nul (b ∷ s) rest h = ground (arith, h.0, path_bytes-nul s rest h.1)

false-ne-true : false ≢ true
false-ne-true h = cc

if-taken : (t : Bool) (x : Str) → t ≡ true → (if t then x else []) ≡ x
if-taken t x h = rw h

-- The bytes of the present character, none between two characters.
abbrev open_bytes : ℕ → Str → Str
open_bytes zero pending = []
open_bytes (suc n) pending = pending

abbrev IsHead : Str → Str → Type 0
IsHead head s = (tail : Str) × (s ≡ head ++ tail)

if-IsHead : (t : Bool) (x whole : Str) → IsHead x whole → IsHead (if t then x else []) whole
if-IsHead true x whole h = h
if-IsHead false x whole h = (whole, refl)

pub utf8_head-valid :
    (n lo hi : ℕ) (pending s : Str)
    → utf8_from n lo hi s ≡ true
    → utf8_head n lo hi (open_bytes n pending) s ≡ open_bytes n pending ++ s
unfolding utf8_head utf8_from
utf8_head-valid zero lo hi pending [] h = refl
utf8_head-valid (suc n) lo hi pending [] h = cc
utf8_head-valid zero lo hi pending (b ∷ s) h = elim (Option-cases (lead_byte b)) [
  | inl e ↦ absurd (false-ne-true (rw (e, utf8_from) at h))
  | inr ((zero, lo', hi'), e) ↦
      rw (e, utf8_head) (ap (◌∷◌ b) (utf8_head-valid 0 lo' hi' [] s (rw (e, utf8_from) at h)))
  | inr ((suc n, lo', hi'), e) ↦
      rw (e, utf8_head) (utf8_head-valid (suc n) lo' hi' (b ∷ []) s (rw (e, utf8_from) at h))
]
utf8_head-valid (suc zero) lo hi pending (b ∷ s) h =
    let (fits, rest) = (&&_iff (leb lo b && leb b hi) (utf8_from 0 0x80 0xbf s)).0 h in
    if-taken (leb lo b && leb b hi) _ fits
    ∙ ap (◌++◌ (pending ++ (b ∷ []))) (utf8_head-valid 0 0x80 0xbf [] s rest)
    ∙ append_assoc pending (b ∷ []) s
utf8_head-valid (suc (suc n)) lo hi pending (b ∷ s) h =
    let (fits, rest) = (&&_iff (leb lo b && leb b hi) (utf8_from (suc n) 0x80 0xbf s)).0 h in
    if-taken (leb lo b && leb b hi) _ fits
    ∙ utf8_head-valid (suc n) 0x80 0xbf (pending ++ (b ∷ [])) s rest
    ∙ append_assoc pending (b ∷ []) s

utf8_head-IsHead :
    (n lo hi : ℕ) (pending s : Str)
    → IsHead (utf8_head n lo hi (open_bytes n pending) s) (open_bytes n pending ++ s)
unfolding utf8_head
utf8_head-IsHead zero lo hi pending [] = ([], refl)
utf8_head-IsHead (suc n) lo hi pending [] = (pending ++ [], refl)
utf8_head-IsHead zero lo hi pending (b ∷ s) = elim (Option-cases (lead_byte b)) [
  | inl e ↦ (b ∷ s, rw (e, utf8_head) refl)
  | inr ((zero, lo', hi'), e) ↦
      let (tail, f) = utf8_head-IsHead 0 lo' hi' [] s in (tail, rw (e, utf8_head) (ap (◌∷◌ b) f))
  | inr ((suc n, lo', hi'), e) ↦
      let (tail, f) = utf8_head-IsHead (suc n) lo' hi' (b ∷ []) s in (tail, rw (e, utf8_head) f)
]
utf8_head-IsHead (suc zero) lo hi pending (b ∷ s) =
    let (tail, f) = utf8_head-IsHead 0 0x80 0xbf [] s in
    if-IsHead (leb lo b && leb b hi) _ (pending ++ (b ∷ s)) (
      tail,
      sym (append_assoc pending (b ∷ []) s)
          ∙ ap (◌++◌ (pending ++ (b ∷ []))) f
          ∙ sym (append_assoc (pending ++ (b ∷ [])) (utf8_head 0 0x80 0xbf [] s) tail),
    )
utf8_head-IsHead (suc (suc n)) lo hi pending (b ∷ s) =
    let (tail, f) = utf8_head-IsHead (suc n) 0x80 0xbf (pending ++ (b ∷ [])) s in
    if-IsHead (leb lo b && leb b hi) _ (pending ++ (b ∷ s))
      (tail, sym (append_assoc pending (b ∷ []) s) ∙ f)

-- Of what `s` is the head, the text that is kept of `s` is too.
kept-IsHead : (s lost : Str) → IsHead (utf8_head 0 0 0 [] s) (s ++ lost)
kept-IsHead s lost =
    let (tail, f) = utf8_head-IsHead 0 0 0 [] s in
    (tail ++ lost, ap (λ t. t ++ lost) f ∙ append_assoc (utf8_head 0 0 0 [] s) tail lost)

whole_shape :
    (flag : Bool) (s : Str)
    → IsHead (utf8_head 0 0 0 [] s) s
      × ((flag || leb (path_len - 1) (length s)) ≡ false
          → is_utf8 s ≡ true
          → utf8_head 0 0 0 [] s ≡ s)
      × (path_len ≤ length s + 1 → (flag || leb (path_len - 1) (length s)) ≡ true)
unfolding is_utf8
whole_shape flag s =
    (utf8_head-IsHead 0 0 0 [] s, (λ h u. utf8_head-valid 0 0 0 [] s u), λ h. ground arith)

cut_shape :
    (flag : Bool) (s lost : Str)
    → length s + 1 ≡ path_len
    → IsHead (utf8_head 0 0 0 [] s) (s ++ lost)
      × ((flag || leb (path_len - 1) (length s)) ≡ false
          → is_utf8 (s ++ lost) ≡ true
          → utf8_head 0 0 0 [] s ≡ s ++ lost)
      × (path_len ≤ length (s ++ lost) + 1 → (flag || leb (path_len - 1) (length s)) ≡ true)
cut_shape flag s lost full =
    let cut = reached flag (length s) full in
    (kept-IsHead s lost, (λ h u. absurd (false-ne-true (sym h ∙ cut))), λ h. cut)
  where
    reached : (flag : Bool) (n : ℕ) → n + 1 ≡ path_len → (flag || leb (path_len - 1) n) ≡ true
    reached flag n e = ground arith

All-head : (P : ℕ → Type 0) (s lost : Str) → All P (s ++ lost) → All P s
All-head P [] lost h = tt
All-head P (b ∷ s) lost h = (h.0, All-head P s lost h.1)

-- Of a path that the kernel copied into the record, the evaluator sees a head. If it is not told
-- that the path is truncated, the whole path was copied, and it sees all of it where that is
-- UTF-8; and a path of 255 bytes or more is always called truncated.
pub syscall_event-path :
    (event : Event) (arch : SyscallArch) (path : Str)
    → IsCopyOf path event.path
    → let seen = syscall_event event arch in
      ((tail : Str) × (path ≡ seen.path ++ tail))
      × (seen.path_truncated ≡ false → is_utf8 path ≡ true → seen.path ≡ path)
      × (path_len ≤ length path + 1 → seen.path_truncated ≡ true)
unfolding syscall_event nul_trimmed_str path_truncated
syscall_event-path event arch path c = elim c.copied [
  | inl (rest, short, e) ↦
      rw (ap path_bytes e ∙ path_bytes-nul path rest c.no_nul)
        (whole_shape (flagged_truncated event) path)
  | inr (seen, lost, e, full, f) ↦
      let no_nul =
        All-head (λ b. (b == 0) ≡ false) seen lost
          (subst (All (λ b. (b == 0) ≡ false)) e c.no_nul) in
      rw e (
        rw (ap path_bytes f ∙ path_bytes-nul seen [] no_nul)
          (cut_shape (flagged_truncated event) seen lost full))
]
