-- ===== src/Identity.antt =====
-- crates/ferrum-k8smeta: the identity that the agent joins to a cgroup.
use ferrum.Prelude.{Bool, false, [], is_empty}
use ferrum.Text.{Str}
use ferrum.Labels.{Labels}

pub record WorkloadIdentity : Type 0 where
  pub namespace : Str
  pub pod : Str
  pub container : Str
  pub service_account : Str
  pub cluster_labels : Labels
  pub namespace_labels : Labels
  pub workload_labels : Labels
  pub service_account_labels : Labels
  pub cluster_labels_observed : Bool
  pub namespace_labels_observed : Bool
  pub service_account_labels_observed : Bool
  pub image : Str
  pub image_digest : Str

-- `WorkloadIdentity::unknown()`, which is the default value.
abbrev pub unknown : WorkloadIdentity
unknown = record {
  namespace = [];
  pod = [];
  container = [];
  service_account = [];
  cluster_labels = [];
  namespace_labels = [];
  workload_labels = [];
  service_account_labels = [];
  cluster_labels_observed = false;
  namespace_labels_observed = false;
  service_account_labels_observed = false;
  image = [];
  image_digest = [];
}

unfoldable pub is_unknown : WorkloadIdentity → Bool
is_unknown identity = is_empty identity.pod
