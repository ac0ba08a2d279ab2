-- ===== src/Ebpf/Eval/Selector.antt =====
-- crates/ferrum-ebpf/src/eval.rs: the selector of a program against a workload identity.
use ferrum.Prelude.{
  Bool, true, false, ◌&&◌, ◌||◌, not, Option, none, some, List, is_empty, if◌then◌else◌, any, all,
}
use ferrum.Text.{Str, str, str_eq, starts_with, contains_str}
use ferrum.Labels.{Labels, get, contains_key}
use ferrum.Identity.{WorkloadIdentity, is_unknown}
use ferrum.Ebpf.Spec.{
  LabelRequirement, LabelSelector, PolicySelector, selects_all, is_cluster_wide, is_namespaced,
}

pub data SelectorMatch : Type 0 where
  full_match no_match labels_unknown : SelectorMatch

unfoldable pub labels_unobserved : LabelSelector → Bool → Bool
labels_unobserved selector observed = not (selects_all selector) && not observed

abbrev in_values : List Str → Option Str → Bool
in_values values none = false
in_values values (some v) = any (λ want. str_eq want v) values

abbrev not_in_values : List Str → Option Str → Bool
not_in_values values none = true
not_in_values values (some v) = all (λ want. not (str_eq want v)) values

unfoldable pub expression_matches : LabelRequirement → Labels → Bool
expression_matches expr labels =
    if str_eq expr.operator (str "In")
    then in_values expr.values (get labels expr.key)
    else if str_eq expr.operator (str "NotIn")
    then not_in_values expr.values (get labels expr.key)
    else if str_eq expr.operator (str "Exists")
    then contains_key labels expr.key
    else if str_eq expr.operator (str "DoesNotExist")
    then not (contains_key labels expr.key)
    else false

-- `labels.get(key) == Some(value)`.
abbrev has_value : Option Str → Str → Bool
has_value none value = false
has_value (some v) value = str_eq v value

unfoldable pub label_selector_matches : LabelSelector → Labels → Bool
label_selector_matches selector labels =
    if selects_all selector
    then true
    else if not (all (λ kv. has_value (get labels kv.0) kv.1) selector.match_labels)
    then false
    else if not (all (λ e. expression_matches e labels) selector.match_expressions)
    then false
    else true

unfoldable pub image_matches : PolicySelector → WorkloadIdentity → Bool
image_matches selector identity =
    if not (is_empty selector.image.registries_allow)
      && not (
          any (λ reg. not (is_empty reg) && starts_with identity.image reg)
            selector.image.registries_allow)
    then false
    else if selector.image.require_digest
        && not
            (not (is_empty identity.image_digest) || contains_str identity.image (str "@sha256:"))
    then false
    else true

-- One of the three joined label groups was never observed and the selector needs it.
unfoldable pub needs_unobserved : PolicySelector → WorkloadIdentity → Bool
unfolding labels_unobserved
needs_unobserved selector identity =
    labels_unobserved selector.cluster_selector identity.cluster_labels_observed
    || labels_unobserved selector.namespace_selector identity.namespace_labels_observed
    || labels_unobserved selector.service_account_selector identity.service_account_labels_observed

unfoldable pub all_match : PolicySelector → WorkloadIdentity → Bool
all_match selector identity =
    label_selector_matches selector.cluster_selector identity.cluster_labels
    && label_selector_matches selector.namespace_selector identity.namespace_labels
    && label_selector_matches selector.workload_selector identity.workload_labels
    && label_selector_matches selector.service_account_selector identity.service_account_labels
    && image_matches selector identity

unfoldable pub selector_match : PolicySelector → WorkloadIdentity → SelectorMatch
selector_match selector identity =
    if is_cluster_wide selector
    then full_match
    else if is_namespaced selector && is_unknown identity
    then no_match
    else if needs_unobserved selector identity
    then labels_unknown
    else if all_match selector identity
    then full_match
    else no_match

unfoldable pub selector_matches : PolicySelector → WorkloadIdentity → Bool
selector_matches selector identity = elim (selector_match selector identity) [
  | full_match ↦ true
  | no_match ↦ false
  | labels_unknown ↦ false
]
