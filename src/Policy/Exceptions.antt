-- ===== src/Policy/Exceptions.antt =====
-- crates/ferrum-policy: exceptions (src/lib.rs) and the combination of hits (src/eval.rs). The
-- clock's type, its order and its addition of days belong to the crate `chrono`, and are
-- parameters.
pub mod Laws
use ferrum.Prelude.{
  ℕ, Bool, true, false, ◌||◌, not, List, [], ◌∷◌, is_empty, length, any, ltb, leb, if◌then◌else◌,
}
use ferrum.Text.{Str, str_eq, trim, contains}
use ferrum.Error.{Message, Result, ok, err, validation}
use ferrum.Api.{RuntimeAction}

abbrev pub min_reason_len : ℕ
min_reason_len = 8

abbrev pub max_exception_days : ℕ
max_exception_days = 90

pub record ExceptionTarget : Type 0 where
  pub namespace : Str
  pub policies : List Str
  pub rules : List Str

pub record PolicyExceptionSpec (Time : Type 0) : Type 0 where
  pub ticket : Str
  pub requested_by : Str
  pub approved_by : Str
  pub reason : Str
  pub expires_at : Time
  pub four_eyes : Bool
  pub target : ExceptionTarget

pub record RuleHit : Type 0 where
  pub namespace : Str
  pub policy : Str
  pub rule : Str
  pub action : RuntimeAction

abbrev pub action_rank : RuntimeAction → ℕ
action_rank RuntimeAction.allow = 0
action_rank RuntimeAction.audit = 1
action_rank RuntimeAction.deny = 2
action_rank RuntimeAction.isolate = 3
action_rank RuntimeAction.kill = 4

unfoldable pub namespace_matches : Str → Str → Bool
namespace_matches exception_ns hit_ns =
    if is_empty (trim exception_ns)
    then is_empty (trim hit_ns)
    else str_eq (trim exception_ns) (trim hit_ns)

-- An action that ranks no lower replaces the one so far, as in `max_by_key`.
abbrev pub max_by_rank : RuntimeAction → RuntimeAction → RuntimeAction
max_by_rank best action = if leb (action_rank best) (action_rank action) then action else best

module _ {Time : Type 0} (before : Time → Time → Bool) (add_days : Time → ℕ → Time) where
  unfoldable pub validate_exception : PolicyExceptionSpec Time → Time → Result (Unit {0})
  validate_exception spec now =
      if is_empty (trim spec.ticket)
      then err (validation Message.no_ticket)
      else if ltb (length (trim spec.reason)) min_reason_len
      then err (validation Message.short_reason)
      else if is_empty (trim spec.approved_by)
      then err (validation Message.no_approver)
      else if str_eq (trim spec.approved_by) (trim spec.requested_by)
      then err (validation Message.self_approved)
      else if not (before now spec.expires_at)
      then err (validation Message.dead_on_arrival)
      else if before (add_days now max_exception_days) spec.expires_at
      then err (validation Message.overlong_waiver)
      else if is_empty spec.target.policies || any (λ p. is_empty (trim p)) spec.target.policies
      then err (validation Message.no_target_policies)
      else if is_empty spec.target.rules || any (λ r. is_empty (trim r)) spec.target.rules
      then err (validation Message.no_target_rules)
      else ok tt

  unfoldable pub exception_applies : PolicyExceptionSpec Time → Str → Str → Str → Time → Bool
  exception_applies spec namespace policy rule now =
      if is_empty (trim spec.ticket) || ltb (length (trim spec.reason)) min_reason_len
      then false
      else if is_empty (trim spec.approved_by)
          || str_eq (trim spec.approved_by) (trim spec.requested_by)
      then false
      else if not (before now spec.expires_at)
      then false
      else if before (add_days now max_exception_days) spec.expires_at
      then false
      else if not (namespace_matches spec.target.namespace namespace)
      then false
      else if not (contains spec.target.policies policy)
      then false
      else if not (contains spec.target.rules rule)
      then false
      else true

  unfoldable pub exception_applies_to : List (PolicyExceptionSpec Time) → RuleHit → Time → Bool
  exception_applies_to exceptions hit now =
      any (λ spec. exception_applies spec hit.namespace hit.policy hit.rule now) exceptions

  -- `max_by_key` over the hits that no exception waives, from the last hit on.
  unfoldable pub evaluate_from :
      RuntimeAction → List RuleHit → List (PolicyExceptionSpec Time) → Time → RuntimeAction
  evaluate_from best [] exceptions now = best
  evaluate_from best (hit ∷ hits) exceptions now =
      evaluate_from
        (if exception_applies_to exceptions hit now then best else max_by_rank best hit.action) hits
        exceptions now

  -- Up to the first hit that counts there is no action yet.
  unfoldable pub evaluate :
      List RuleHit → RuntimeAction → List (PolicyExceptionSpec Time) → Time → RuntimeAction
  evaluate [] default_action exceptions now = default_action
  evaluate (hit ∷ hits) default_action exceptions now =
      let none_yet = evaluate hits default_action exceptions now in
      if exception_applies_to exceptions hit now
      then none_yet
      else evaluate_from hit.action hits exceptions now
