-- ===== src/Tests/Waivers.antt =====
-- Exceptions at concrete inputs; the clock counts seconds.
use ferrum.Prelude.{ℕ, ◌+◌, ◌*◌, ◌≡◌, refl, true, ◌&&◌, [], ◌∷◌, List, ltb}
use ferrum.Text.{str, str_eq, trim, skip, space_front, space_back, contains}
use ferrum.Error.{ok}
use ferrum.Api.{RuntimeAction}
use ferrum.Policy.Exceptions.{
  PolicyExceptionSpec, RuleHit, namespace_matches, validate_exception, exception_applies,
  exception_applies_to, evaluate_from, evaluate,
}
use ferrum.Policy.Exceptions.Laws.{IsOutcome, validate_exception-applies, evaluate-IsOutcome}

abbrev add_days : ℕ → ℕ → ℕ
add_days now days = now + 86400 * days

abbrev waiver : PolicyExceptionSpec ℕ
waiver = record {
  ticket = str "SEC-1";
  requested_by = str "ann";
  approved_by = str "bob";
  reason = str "migration";
  expires_at = 2000;
  four_eyes = true;
  target = record { namespace = str "web"; policies = str "p" ∷ []; rules = str "k" ∷ [] };
}

abbrev hits : List RuleHit
hits =
    record { namespace = str "web"; policy = str "p"; rule = str "k"; action = RuntimeAction.kill }
    ∷ record {
      namespace = str "web";
      policy = str "p";
      rule = str "a";
      action = RuntimeAction.audit;
    }
    ∷ []

exceptions : Unit {0}
unfolding validate_exception exception_applies exception_applies_to evaluate_from evaluate
    namespace_matches contains str_eq trim skip space_front space_back
exceptions = tt

accepted : validate_exception ltb add_days waiver 1000 ≡ ok tt
unfolding exceptions
accepted = refl

waived_kill :
    evaluate ltb add_days hits RuntimeAction.allow (waiver ∷ []) 1000 ≡ RuntimeAction.audit
unfolding exceptions
waived_kill = refl

expired : evaluate ltb add_days hits RuntimeAction.allow (waiver ∷ []) 2000 ≡ RuntimeAction.kill
unfolding exceptions
expired = refl

validate_exception-applies_example :
    exception_applies ltb add_days waiver (str "web") (str "p") (str "k") 1000 ≡ (
      namespace_matches waiver.target.namespace (str "web")
      && (contains waiver.target.policies (str "p") && contains waiver.target.rules (str "k")))
validate_exception-applies_example =
    validate_exception-applies ltb add_days waiver (str "web") (str "p") (str "k") 1000 accepted

evaluate-IsOutcome_example :
    IsOutcome ltb add_days hits RuntimeAction.allow
      (waiver ∷ [])
      1000
      (evaluate ltb add_days hits RuntimeAction.allow (waiver ∷ []) 1000)
evaluate-IsOutcome_example =
    evaluate-IsOutcome ltb add_days hits RuntimeAction.allow (waiver ∷ []) 1000
