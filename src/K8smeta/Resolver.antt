-- ===== src/K8smeta/Resolver.antt =====
-- crates/ferrum-k8smeta/src/resolver.rs, with the records of src/source.rs and src/cgroupfs.rs that
-- it joins.
pub mod Joined
pub mod Owned
use ferrum.Prelude.{
  ℕ, ◌+◌, ◌-◌, Bool, true, false, ◌&&◌, ◌||◌, not, Option, none, some, List, [], ◌∷◌, is_empty,
  length, ltb, leb, if◌then◌else◌,
}
use ferrum.Text.{Str, str_eq, starts_with}
use ferrum.Labels.{Labels}
use ferrum.Identity.{WorkloadIdentity}
use ferrum.K8smeta.Index.{Index, insert, lookup_cgroup}

abbrev pub min_id_prefix_match : ℕ
min_id_prefix_match = 12

pub record ContainerRecord : Type 0 where
  pub name : Str
  pub id : Str
  pub image : Str
  pub image_digest : Str

pub record PodRecord : Type 0 where
  pub uid : Str
  pub namespace : Str
  pub name : Str
  pub node_name : Str
  pub service_account : Str
  pub resource_version : Str
  pub labels : Labels
  pub namespace_labels : Labels
  pub service_account_labels : Labels
  pub namespace_labels_observed : Bool
  pub service_account_labels_observed : Bool
  pub containers : List ContainerRecord

pub record CgroupEntry : Type 0 where
  pub inode : ℕ
  pub path : Str
  pub pod_uid : Str
  pub container_id : Str

pub record RefreshStats : Type 0 where
  pub scanned : ℕ
  pub resolved : ℕ
  pub unknown_pod : ℕ
  pub unknown_container : ℕ
  pub evicted : ℕ

-- The shorter of the two names a long enough head of the longer one.
abbrev pub heads : Str → Str → Bool
heads short long = leb min_id_prefix_match (length short) && starts_with long short

unfoldable pub container_id_matches : Str → Str → Bool
container_id_matches cgroup_id runtime_id =
    if is_empty cgroup_id || is_empty runtime_id
    then false
    else if str_eq cgroup_id runtime_id
    then true
    else if ltb (length cgroup_id) (length runtime_id)
    then heads cgroup_id runtime_id
    else heads runtime_id cgroup_id

abbrev pub first_match : Str → List ContainerRecord → Option ContainerRecord
first_match id [] = none
first_match id (c ∷ cs) =
    let rest = first_match id cs in if container_id_matches id c.id then some c else rest

unfoldable pub container_by_id : PodRecord → Str → Option ContainerRecord
unfolding container_id_matches
container_by_id pod id = first_match id pod.containers

-- `PodRecord::identity`.
unfoldable pub identity_for : PodRecord → ContainerRecord → WorkloadIdentity
identity_for pod container = record {
  namespace = pod.namespace;
  pod = pod.name;
  container = container.name;
  service_account = pod.service_account;
  cluster_labels = [];
  namespace_labels = pod.namespace_labels;
  workload_labels = pod.labels;
  service_account_labels = pod.service_account_labels;
  cluster_labels_observed = false;
  namespace_labels_observed = pod.namespace_labels_observed;
  service_account_labels_observed = pod.service_account_labels_observed;
  image = container.image;
  image_digest = container.image_digest;
}

-- The map by uid that the pods are collected into: the last of a uid stays.
unfoldable pub by_uid : List PodRecord → Str → Option PodRecord
by_uid [] uid = none
by_uid (pod ∷ pods) uid = elim (by_uid pods uid) [
  | some later ↦ some later
  | none ↦ if str_eq pod.uid uid then some pod else none
]

-- The body of the loop, of what the two searches found.
abbrev pub joined :
    CgroupEntry → Option ContainerRecord → PodRecord → Index × RefreshStats → Index × RefreshStats
joined entry none pod (next, stats) =
    (next, record stats { unknown_container = stats.unknown_container + 1 })
joined entry (some container) pod (next, stats) = (
  insert entry.inode (identity_for pod container) next,
  record stats { resolved = stats.resolved + 1 },
)

abbrev pub looked_up : CgroupEntry → Option PodRecord → Index × RefreshStats → Index × RefreshStats
looked_up entry none (next, stats) = (next, record stats { unknown_pod = stats.unknown_pod + 1 })
looked_up entry (some pod) state = joined entry (container_by_id pod entry.container_id) pod state

unfoldable pub join_from :
    List PodRecord → List CgroupEntry → Index × RefreshStats → Index × RefreshStats
unfolding by_uid container_by_id identity_for insert
join_from pods [] state = state
join_from pods (entry ∷ entries) state =
    join_from pods entries (looked_up entry (by_uid pods entry.pod_uid) state)

-- `apply`, of the index that it replaces.
unfoldable pub apply : Index → List CgroupEntry → List PodRecord → Index × RefreshStats
unfolding join_from
apply index entries pods =
    let (next, stats) = join_from pods entries (
      [],
      record {
        scanned = length entries;
        resolved = 0;
        unknown_pod = 0;
        unknown_container = 0;
        evicted = 0;
      },
    ) in
    (next, record stats { evicted = length index - stats.resolved })
