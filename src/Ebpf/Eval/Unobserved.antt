-- ===== src/Ebpf/Eval/Unobserved.antt =====
-- crates/ferrum-ebpf/src/eval.rs, `selector_match`: labels that nobody has observed.
use ferrum.Prelude.{◌≡◌, refl, ap, ◌≢◌, Bool, true, false, arith}
use ferrum.Labels.{Labels}
use ferrum.Identity.{WorkloadIdentity, is_unknown}
use ferrum.Ebpf.Spec.{LabelSelector, PolicySelector}
use ferrum.Ebpf.Eval.Selector.{
  full_match, no_match, labels_unobserved, label_selector_matches, image_matches, needs_unobserved,
  all_match, selector_match,
}

-- `full` is what `known` will be once every label group has been observed.
pub record IsCompletedBy (known full : WorkloadIdentity) : Type 0 where
  pub pod : known.pod ≡ full.pod
  pub workload : known.workload_labels ≡ full.workload_labels
  pub image : known.image ≡ full.image
  pub digest : known.image_digest ≡ full.image_digest
  pub cluster : known.cluster_labels_observed ≡ true → known.cluster_labels ≡ full.cluster_labels
  pub namespace :
      known.namespace_labels_observed ≡ true → known.namespace_labels ≡ full.namespace_labels
  pub service_account :
      known.service_account_labels_observed ≡ true
      → known.service_account_labels ≡ full.service_account_labels

group_known :
    (s : LabelSelector) (observed : Bool) (known full : Labels)
    → labels_unobserved s observed ≡ false
    → (observed ≡ true → known ≡ full)
    → label_selector_matches s full ≡ true
    → label_selector_matches s known ≡ true
unfolding labels_unobserved label_selector_matches
group_known s true known full h same m = rw (same refl) m
group_known s false known full h same m = ground arith

image_matches-known :
    (s : PolicySelector) (known full : WorkloadIdentity)
    → IsCompletedBy known full
    → image_matches s full ≡ true
    → image_matches s known ≡ true
unfolding image_matches
image_matches-known s known full c m = rw (c.image, c.digest) m

all_match-known :
    (s : PolicySelector) (known full : WorkloadIdentity)
    → IsCompletedBy known full
    → needs_unobserved s known ≡ false
    → all_match s full ≡ true
    → all_match s known ≡ true
unfolding needs_unobserved all_match
all_match-known s known full c h m = ground (
  arith,
  group_known s.cluster_selector known.cluster_labels_observed known.cluster_labels
      full.cluster_labels (ground arith) c.cluster,
  group_known s.namespace_selector known.namespace_labels_observed known.namespace_labels
      full.namespace_labels (ground arith) c.namespace,
  group_known s.service_account_selector known.service_account_labels_observed
      known.service_account_labels full.service_account_labels (ground arith) c.service_account,
  ap (label_selector_matches s.workload_selector) c.workload,
  image_matches-known s known full c,
)

is_unknown-known :
    (known full : WorkloadIdentity) → IsCompletedBy known full → is_unknown known ≡ is_unknown full
unfolding is_unknown
is_unknown-known known full c = rw c.pod

-- A label group that nobody has observed never rules a workload out: whatever its labels turn out
-- to be, if the selector matches then, it is not refuted now.
pub selector_match-fail_closed :
    (s : PolicySelector) (known full : WorkloadIdentity)
    → IsCompletedBy known full
    → selector_match s full ≡ full_match
    → selector_match s known ≢ no_match
unfolding selector_match
selector_match-fail_closed s known full c m =
    ground (arith, is_unknown-known known full c, all_match-known s known full c)
