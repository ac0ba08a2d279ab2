-- ===== src/Breakglass.antt =====
-- crates/ferrum-breakglass/src/lib.rs: a grant that suspends enforcement for a while. The check of
-- the signature, the digest, the parser of JSON and the moments of the crate `chrono` are parameters.
pub mod Bounded
use ferrum.Prelude.{
  ℕ, zero, suc, ◌+◌, ◌-◌, ◌*◌, ◌/◌, Bool, true, false, ◌&&◌, ◌||◌, not, Option, none, some, List,
  [], ◌∷◌, is_empty, ltb, leb, ◌==◌, if◌then◌else◌,
}
use ferrum.Text.{Str, str, str_eq, trim}

abbrev pub grant_schema : Str
grant_schema = str "ferrum.io/break-glass-grant"

abbrev pub grant_schema_version : Str
grant_schema_version = str "1.0"

abbrev pub scope_admission : Str
scope_admission = str "admission"

abbrev pub max_grant_seconds : ℕ
max_grant_seconds = 14400

abbrev pub max_field_chars : ℕ
max_field_chars = 256

-- `Duration::seconds`, in nanoseconds.
abbrev pub seconds : ℕ → ℕ
seconds s = s * 1000000000

-- `chars().count()`: the bytes that start a character.
unfoldable pub chars_count : Str → ℕ
chars_count [] = 0
chars_count (b ∷ s) =
    let rest = chars_count s in if leb 0x80 b && leb b 0xbf then rest else rest + 1

-- `chars().any(|c| c.is_control())`: U+0000 to U+001F the same with the top bit set, and U+007F.
unfoldable pub any_control : Str → Bool
any_control [] = false
any_control (a ∷ []) = ltb a 0x20 || a == 0x7f
any_control (a ∷ b ∷ s) =
    (ltb a 0x20 || a == 0x7f || (a == 0xc2 && leb 0x80 b && leb b 0x9f)) || any_control (b ∷ s)

module _ (Time : Type 0) where
  pub record Grant : Type 0 where
    pub schema : Str
    pub schema_version : Str
    pub id : Str
    pub scope : Str
    pub subject : Str
    pub issuer : Str
    pub ticket : Str
    pub reason : Str
    pub issued_at : Time
    pub expires_at : Time

  pub record VerifiedGrant : Type 0 where
    pub grant : Grant
    pub digest : Str

  -- The texts of the errors, with the values in them.
  pub data Refusal : Type 0 where
    bad_signature not_json : Str → Refusal
    other_schema other_version other_scope : Str → Refusal
    empty_field long_field control_field : Str → Refusal
    backwards : Str → Time → Time → Refusal
    overlong : Str → ℕ → Refusal
    early expired : Str → Time → Refusal

  pub data Verdict : Type 0 where
    refused : Refusal → Verdict
    verified : VerifiedGrant → Verdict

  -- The order of moments, and the nanoseconds from the second to the first.
  pub record Moments : Type 0 where
    pub before : Time → Time → Bool
    pub since : Time → Time → ℕ

  -- What the crates outside answer for one document: `verify_break_glass_signature`,
  -- `serde_json::from_slice` and `bundle_digest`.
  pub record Outside : Type 0 where
    pub signature_error : Str → Str → Str → Option Str
    pub from_slice : Str → Option Grant
    pub parse_error : Str → Str
    pub digest : Str → Str

module _ {Time : Type 0} where
  -- The body of the loop over the fields.
  unfoldable pub field_refusal : Str → Str → Option (Refusal Time)
  unfolding chars_count any_control
  field_refusal name value =
      if is_empty (trim value)
      then some (empty_field name)
      else if ltb max_field_chars (chars_count value)
      then some (long_field name)
      else if any_control value
      then some (control_field name)
      else none

  unfoldable pub fields_refusal : List (Str × Str) → Option (Refusal Time)
  unfolding field_refusal
  fields_refusal [] = none
  fields_refusal ((name, value) ∷ fields) =
      let rest = fields_refusal fields in
      elim (field_refusal name value) [ some why ↦ some why | none ↦ rest ]

  abbrev pub named_fields : Grant Time → List (Str × Str)
  named_fields grant =
      (str "id", grant.id)
      ∷ (str "subject", grant.subject)
      ∷ (str "issuer", grant.issuer)
      ∷ (str "ticket", grant.ticket)
      ∷ (str "reason", grant.reason)
      ∷ []

module _ {Time : Type 0} (moments : Moments Time) where
  -- The window: what stands behind the loop.
  unfoldable pub window_refusal : Grant Time → Option (Refusal Time)
  window_refusal grant =
      if not (moments.before grant.issued_at grant.expires_at)
      then some (backwards grant.id grant.expires_at grant.issued_at)
      else if ltb (seconds max_grant_seconds) (moments.since grant.expires_at grant.issued_at)
      then some (overlong grant.id (moments.since grant.expires_at grant.issued_at / 1000000000))
      else none

  -- `none` is `Ok(())`.
  unfoldable pub check_invariants : Grant Time → Option (Refusal Time)
  unfolding fields_refusal window_refusal
  check_invariants grant =
      if not (str_eq grant.schema grant_schema)
      then some (other_schema grant.schema)
      else if not (str_eq grant.schema_version grant_schema_version)
      then some (other_version grant.schema_version)
      else if not (str_eq grant.scope scope_admission)
      then some (other_scope grant.scope)
      else elim (fields_refusal (named_fields grant)) [
        | some why ↦ some why
        | none ↦ window_refusal grant
      ]

  -- `VerifiedGrant::covers` and `remaining_seconds`.
  unfoldable pub covers : VerifiedGrant Time → Time → Bool
  covers held now =
      not (moments.before now held.grant.issued_at) && moments.before now held.grant.expires_at

  unfoldable pub remaining_seconds : VerifiedGrant Time → Time → ℕ
  remaining_seconds held now =
      if moments.before now held.grant.expires_at
      then moments.since held.grant.expires_at now / 1000000000
      else 0

  -- What stands behind the parser.
  unfoldable pub admit : Outside Time → Str → Time → Grant Time → Verdict Time
  unfolding check_invariants
  admit outside raw now grant = elim (check_invariants grant) [
    | some why ↦ refused why
    | none ↦
        if moments.before now grant.issued_at
        then refused (early grant.id grant.issued_at)
        else if not (moments.before now grant.expires_at)
        then refused (expired grant.id grant.expires_at)
        else verified (record { digest = outside.digest raw; grant = grant })
  ]

  unfoldable pub verify_grant : Outside Time → Str → Str → Str → Time → Verdict Time
  unfolding admit
  verify_grant outside raw signature trust_root now =
      elim (outside.signature_error raw signature trust_root) [
        | some why ↦ refused (bad_signature why)
        | none ↦ elim (outside.from_slice raw) [
          | none ↦ refused (not_json (outside.parse_error raw))
          | some grant ↦ admit outside raw now grant
        ]
      ]
