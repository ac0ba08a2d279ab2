-- ===== src/Breakglass/Bounded.antt =====
-- crates/ferrum-breakglass/src/lib.rs: what a grant that is verified is like.
use ferrum.Prelude.{
  ℕ, ◌≤◌, ◌<◌, ◌≡◌, refl, ap, sym, subst, ◌∙◌, Bool, true, false, ◌&&◌, not, Option, none, some,
  List, [], ◌∷◌, is_empty, All, ltb, if◌then◌else◌, arith,
}
use ferrum.Text.{Str, str_eq, trim}
use ferrum.Text.Laws.{str_eq_iff}
use ferrum.Breakglass.{
  grant_schema, grant_schema_version, scope_admission, max_grant_seconds, max_field_chars,
  chars_count, any_control, Grant, VerifiedGrant, Refusal, Moments, Outside, field_refusal,
  fields_refusal, named_fields, seconds, window_refusal, check_invariants, covers, Verdict, refused,
  verified, admit, verify_grant,
}

-- A field that names someone or something, in one line.
pub record IsField (value : Str) : Type 0 where
  pub filled : is_empty (trim value) ≡ false
  pub short : chars_count value ≤ max_field_chars
  pub one_line : any_control value ≡ false

module _ {Time : Type 0} (moments : Moments Time) where
  -- A grant of this build for the one scope, all of whose fields are attributable, and whose window
  -- has an end that is not too far off.
  pub record IsGrant (grant : Grant Time) : Type 0 where
    pub schema : grant.schema ≡ grant_schema
    pub version : grant.schema_version ≡ grant_schema_version
    pub scope : grant.scope ≡ scope_admission
    pub fields : All (λ (field : Str × Str). IsField field.1) (named_fields grant)
    pub forward : moments.before grant.issued_at grant.expires_at ≡ true
    pub bounded : moments.since grant.expires_at grant.issued_at ≤ seconds max_grant_seconds

  field_refusal-IsField :
      (name value : Str) → field_refusal {Time = Time} name value ≡ none → IsField value
  unfolding field_refusal
  field_refusal-IsField name value h =
      let (f, s, o) =
        passed (is_empty (trim value)) (any_control value) (chars_count value) _ _ _ h in
      record { filled = f; short = s; one_line = o }
    where
      passed :
          (a b : Bool) (n : ℕ) (r s t : Refusal Time)
          → (if a then some r else if ltb 256 n then some s else if b then some t else none) ≡ none
          → (a ≡ false) × (n ≤ 256) × (b ≡ false)
      passed a b n r s t h = ground (arith, h)

  fields_refusal-IsField :
      (fields : List (Str × Str))
      → fields_refusal {Time = Time} fields ≡ none
      → All (λ (field : Str × Str). IsField field.1) fields
  unfolding fields_refusal
  fields_refusal-IsField [] h = tt
  fields_refusal-IsField ((name, value) ∷ fields) h =
      let (here, later) = both (field_refusal name value) (fields_refusal fields) h in
      (field_refusal-IsField name value here, fields_refusal-IsField fields later)
    where
      both :
          (a b : Option (Refusal Time))
          → elim a [ some why ↦ some why | none ↦ b ] ≡ none
          → (a ≡ none) × (b ≡ none)
      both none b h = (refl, h)
      both (some r) b h = cc

  window_refusal-none :
      (grant : Grant Time)
      → window_refusal moments grant ≡ none
      → (moments.before grant.issued_at grant.expires_at ≡ true)
        × (moments.since grant.expires_at grant.issued_at ≤ seconds max_grant_seconds)
  unfolding window_refusal
  window_refusal-none grant h =
      passed (moments.before grant.issued_at grant.expires_at)
        (moments.since grant.expires_at grant.issued_at) (seconds max_grant_seconds) _ _ h
    where
      passed :
          (a : Bool) (n m : ℕ) (r s : Refusal Time)
          → (if not a then some r else if ltb m n then some s else none) ≡ none
          → (a ≡ true) × (n ≤ m)
      passed a n m r s h = ground (arith, h)

  check_invariants-IsGrant :
      (grant : Grant Time) → check_invariants moments grant ≡ none → IsGrant grant
  unfolding check_invariants
  check_invariants-IsGrant grant h =
      let (s, v, c, rest) =
        passed (str_eq grant.schema grant_schema) (str_eq grant.schema_version grant_schema_version)
          (str_eq grant.scope scope_admission) _ _ _ _ h in
      let (f, w) = both (fields_refusal (named_fields grant)) _ rest in
      let (forward, bounded) = window_refusal-none grant w in
      record {
        schema = (str_eq_iff grant.schema grant_schema).0 s;
        version = (str_eq_iff grant.schema_version grant_schema_version).0 v;
        scope = (str_eq_iff grant.scope scope_admission).0 c;
        fields = fields_refusal-IsField (named_fields grant) f;
        forward = forward;
        bounded = bounded;
      }
    where
      passed :
          (a b c : Bool) (r s t : Refusal Time) (rest : Option (Refusal Time))
          → (if not a then some r else if not b then some s else if not c then some t else rest)
            ≡ none
          → (a ≡ true) × (b ≡ true) × (c ≡ true) × (rest ≡ none)
      passed true true true r s t rest h = (refl, refl, refl, h)
      passed true true false r s t rest h = cc
      passed true false c r s t rest h = cc
      passed false b c r s t rest h = cc

      both :
          (a b : Option (Refusal Time))
          → elim a [ some why ↦ some why | none ↦ b ] ≡ none
          → (a ≡ none) × (b ≡ none)
      both none b h = (refl, h)
      both (some r) b h = cc

  -- Read from the document, of this build, and with a window that covers the moment.
  pub record IsVerified (outside : Outside Time) (raw : Str) (now : Time) (v : VerifiedGrant Time)
      : Type 0 where
    pub digest : v.digest ≡ outside.digest raw
    pub grant : IsGrant v.grant
    pub live : covers moments v now ≡ true

  admit-IsVerified :
      (outside : Outside Time) (raw : Str) (now : Time) (grant : Grant Time)
      (v : VerifiedGrant Time)
      → admit moments outside raw now grant ≡ verified v
      → (v.grant ≡ grant) × IsVerified outside raw now v
  unfolding admit covers
  admit-IsVerified outside raw now grant v h = checked (check_invariants moments grant) refl h
    where
      held : VerifiedGrant Time
      held = record { digest = outside.digest raw; grant = grant }

      same : (w : VerifiedGrant Time) → verified w ≡ verified v → w ≡ v
      same w e = cc

      clock :
          (a b : Bool)
          → moments.before now grant.issued_at ≡ a
          → moments.before now grant.expires_at ≡ b
          → IsGrant grant
          → if◌then◌else◌ {A = Verdict Time} a (refused (Refusal.early grant.id grant.issued_at)) (
              if◌then◌else◌ {A = Verdict Time}
                (not b)
                (refused (Refusal.expired grant.id grant.expires_at))
                (verified held))
            ≡ verified v
          → (v.grant ≡ grant) × IsVerified outside raw now v
      clock true b e f g h = cc
      clock false false e f g h = cc
      clock false true e f g h =
          subst (λ w. (w.grant ≡ grant) × IsVerified outside raw now w) (same held h)
            (refl, record { digest = refl; grant = g; live = rw (e, f) refl })

      checked :
          (o : Option (Refusal Time))
          → check_invariants moments grant ≡ o
          → elim o as (λ x. Verdict Time) [
            | some why ↦ refused why
            | none ↦
                if moments.before now grant.issued_at
                then refused (Refusal.early grant.id grant.issued_at)
                else if not (moments.before now grant.expires_at)
                then refused (Refusal.expired grant.id grant.expires_at)
                else verified held
          ]
            ≡ verified v
          → (v.grant ≡ grant) × IsVerified outside raw now v
      checked (some why) e h = cc
      checked none e h = clock _ _ refl refl (check_invariants-IsGrant grant e) h

  -- A grant that is verified was signed, is the one in the document, is attributable in every
  -- field, has a window of at most the longest one, and that window covers the moment.
  pub verify_grant-IsVerified :
      (outside : Outside Time) (raw signature trust_root : Str) (now : Time)
      (v : VerifiedGrant Time)
      → verify_grant moments outside raw signature trust_root now ≡ verified v
      → (outside.signature_error raw signature trust_root ≡ none)
        × (outside.from_slice raw ≡ some v.grant)
        × IsVerified outside raw now v
  unfolding verify_grant
  verify_grant-IsVerified outside raw signature trust_root now v h =
      signed (outside.signature_error raw signature trust_root) (outside.from_slice raw) refl refl h
    where
      signed :
          (e : Option Str) (parsed : Option (Grant Time))
          → outside.signature_error raw signature trust_root ≡ e
          → outside.from_slice raw ≡ parsed
          → elim e as (λ x. Verdict Time) [
            | some why ↦ refused (Refusal.bad_signature why)
            | none ↦ elim parsed as (λ x. Verdict Time) [
              | none ↦ refused (Refusal.not_json (outside.parse_error raw))
              | some grant ↦ admit moments outside raw now grant
            ]
          ]
            ≡ verified v
          → (outside.signature_error raw signature trust_root ≡ none)
            × (outside.from_slice raw ≡ some v.grant)
            × IsVerified outside raw now v
      signed (some why) parsed e p h = cc
      signed none none e p h = cc
      signed none (some grant) e p h =
          let (same, fine) = admit-IsVerified outside raw now grant v h in
          (e, p ∙ ap some (sym same), fine)

  -- If of two moments that are not before a third the later is the further from it, a window of a verified grant covers no moment
  -- that is the longest window or more behind its start, whenever it is asked.
  pub covers-bounded :
      (outside : Outside Time) (raw signature trust_root : Str) (now later : Time)
      (v : VerifiedGrant Time)
      → ((a b c : Time)
          → moments.before b a ≡ false
          → moments.before b c ≡ true
          → moments.since b a < moments.since c a)
      → verify_grant moments outside raw signature trust_root now ≡ verified v
      → covers moments v later ≡ true
      → (moments.since later v.grant.issued_at < seconds max_grant_seconds)
        × (moments.before later v.grant.issued_at ≡ false)
  unfolding covers
  covers-bounded outside raw signature trust_root now later v further h c =
      let fine = (verify_grant-IsVerified outside raw signature trust_root now v h).2 in
      let (start, stop) = parts _ _ c in
      (
        omega (
          arith,
          further v.grant.issued_at later v.grant.expires_at start stop,
          fine.grant.bounded,
        ),
        start,
      )
    where
      parts : (a b : Bool) → (not a && b) ≡ true → (a ≡ false) × (b ≡ true)
      parts a b h = ground (arith, h)
