-- ===== src/Tests/Grants.antt =====
-- Grants at concrete inputs. Moments are numbers of nanoseconds.
use ferrum.Prelude.{ℕ, ◌-◌, ◌<◌, ◌≡◌, refl, true, false, none, some, [], ltb, arith}
use ferrum.Text.{str, str_eq, trim}
use ferrum.Breakglass.{
  max_grant_seconds, seconds, Grant, VerifiedGrant, Moments, Outside, verified, covers,
  verify_grant,
}
use ferrum.Breakglass.Bounded.{IsVerified, verify_grant-IsVerified, covers-bounded}

abbrev moments : Moments ℕ
moments = record { before = ltb; since = λ a b. a - b }

-- An hour, from the tenth second on.
abbrev hour : Grant ℕ
hour = record {
  schema = str "ferrum.io/break-glass-grant";
  schema_version = str "1.0";
  id = str "g";
  scope = str "admission";
  subject = str "ann";
  issuer = str "bob";
  ticket = str "INC-1";
  reason = str "webhook down";
  issued_at = seconds 10;
  expires_at = seconds 3610;
}

abbrev outside : Outside ℕ
outside = record {
  signature_error = λ raw signature root. none;
  from_slice = λ raw. some hour;
  parse_error = λ raw. [];
  digest = λ raw. raw;
}

abbrev held : VerifiedGrant ℕ
held = record { grant = hour; digest = str "doc" }

holds : verify_grant moments outside (str "doc") [] [] (seconds 20) ≡ verified held
unfolding verify_grant str_eq trim
holds = refl

verify_grant-IsVerified_example :
    (outside.signature_error (str "doc") [] [] ≡ none)
    × (outside.from_slice (str "doc") ≡ some held.grant)
    × IsVerified moments outside (str "doc") (seconds 20) held
verify_grant-IsVerified_example =
    verify_grant-IsVerified moments outside (str "doc") [] [] (seconds 20) held holds

further : (a b c : ℕ) → ltb b a ≡ false → ltb b c ≡ true → b - a < c - a
further a b c h e = ground (arith, h, e)

within_hour : covers moments held (seconds 3000) ≡ true
unfolding covers
within_hour = refl

covers-bounded_example :
    (seconds 3000 - seconds 10 < seconds max_grant_seconds)
    × (ltb (seconds 3000) (seconds 10) ≡ false)
covers-bounded_example =
    covers-bounded moments outside (str "doc") [] [] (seconds 20) (seconds 3000) held further holds
      within_hour
