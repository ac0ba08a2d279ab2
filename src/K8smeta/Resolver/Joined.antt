-- ===== src/K8smeta/Resolver/Joined.antt =====
-- crates/ferrum-k8smeta/src/resolver.rs: the index holds what the scan and the pods say, and no more.
use ferrum.Prelude.{
  ℕ, ◌≡◌, refl, ap, ◌∙◌, inl, inr, Bool, true, false, Option, none, some, List, [], ◌∷◌, ◌==◌,
  if◌then◌else◌, Bool-cases, arith,
}
use ferrum.Identity.{WorkloadIdentity}
use ferrum.K8smeta.Index.{Index, remove, insert, lookup_cgroup}
use ferrum.K8smeta.Resolver.{
  ContainerRecord, PodRecord, CgroupEntry, RefreshStats, container_by_id, identity_for, by_uid,
  joined, looked_up, join_from, apply,
}

lookup_cgroup-remove :
    (inode i : ℕ) (index : Index)
    → (inode == i) ≡ false
    → lookup_cgroup (remove inode index) i ≡ lookup_cgroup index i
unfolding lookup_cgroup remove
lookup_cgroup-remove inode i [] h = refl
lookup_cgroup-remove inode i ((k, identity) ∷ index) h = elim (Bool-cases (k == inode)) [
  | inl same ↦ rw (same, other k inode i same h) (lookup_cgroup-remove inode i index h)
  | inr apart ↦
      rw apart
        (ap (λ o. if k == i then some identity else o) (lookup_cgroup-remove inode i index h))
]
  where
    other : (k inode i : ℕ) → (k == inode) ≡ true → (inode == i) ≡ false → (k == i) ≡ false
    other k inode i e f = ground (arith, e, f)

lookup_cgroup-insert :
    (inode i : ℕ) (identity : WorkloadIdentity) (index : Index)
    → lookup_cgroup (insert inode identity index) i
      ≡ (if inode == i then some identity else lookup_cgroup index i)
unfolding lookup_cgroup insert
lookup_cgroup-insert inode i identity index = elim (Bool-cases (inode == i)) [
  | inl same ↦ rw same refl
  | inr apart ↦ rw apart (lookup_cgroup-remove inode i index apart)
]

-- What an entry of the scan is joined to.
abbrev pub with_pod : CgroupEntry → Option PodRecord → Option WorkloadIdentity
with_pod entry none = none
with_pod entry (some pod) = elim (container_by_id pod entry.container_id) [
  | none ↦ none
  | some container ↦ some (identity_for pod container)
]

unfoldable pub joins : List PodRecord → CgroupEntry → Option WorkloadIdentity
joins pods entry = with_pod entry (by_uid pods entry.pod_uid)

abbrev pub or_else : Option WorkloadIdentity → Option WorkloadIdentity → Option WorkloadIdentity
or_else none b = b
or_else (some a) b = some a

-- The identity by the last entry of an inode that is joined to a container.
unfoldable pub named_by : List PodRecord → List CgroupEntry → ℕ → Option WorkloadIdentity
named_by pods [] inode = none
named_by pods (entry ∷ entries) inode =
    or_else (named_by pods entries inode) (if entry.inode == inode then joins pods entry else none)

looked_up-lookup :
    (entry : CgroupEntry) (pod : Option PodRecord) (next : Index) (stats : RefreshStats) (i : ℕ)
    → lookup_cgroup (looked_up entry pod (next, stats)).0 i
      ≡ or_else (if entry.inode == i then with_pod entry pod else none) (lookup_cgroup next i)
looked_up-lookup entry none next stats i = pick (entry.inode == i)
  where
    pick :
        (b : Bool)
        → lookup_cgroup next i ≡ or_else (if b then none else none) (lookup_cgroup next i)
    pick true = refl
    pick false = refl
looked_up-lookup entry (some pod) next stats i = found (container_by_id pod entry.container_id)
  where
    missing :
        (b : Bool)
        → lookup_cgroup next i ≡ or_else (if b then none else none) (lookup_cgroup next i)
    missing true = refl
    missing false = refl

    present :
        (b : Bool) (id : WorkloadIdentity)
        → (if b then some id else lookup_cgroup next i)
          ≡ or_else (if b then some id else none) (lookup_cgroup next i)
    present true id = refl
    present false id = refl

    found :
        (o : Option ContainerRecord)
        → lookup_cgroup (joined entry o pod (next, stats)).0 i
          ≡ or_else
              (if entry.inode == i
                then elim o [ none ↦ none | some container ↦ some (identity_for pod container) ]
                else none)
              (lookup_cgroup next i)
    found none = missing (entry.inode == i)
    found (some container) =
        lookup_cgroup-insert entry.inode i (identity_for pod container) next
        ∙ present (entry.inode == i) (identity_for pod container)

join_from-lookup :
    (pods : List PodRecord) (entries : List CgroupEntry) (next : Index) (stats : RefreshStats)
    (i : ℕ)
    → lookup_cgroup (join_from pods entries (next, stats)).0 i
      ≡ or_else (named_by pods entries i) (lookup_cgroup next i)
unfolding join_from named_by joins
join_from-lookup pods [] next stats i = refl
join_from-lookup pods (entry ∷ entries) next stats i =
    let state = looked_up entry (by_uid pods entry.pod_uid) (next, stats) in
    join_from-lookup pods entries state.0 state.1 i
    ∙ ap (or_else (named_by pods entries i))
        (looked_up-lookup entry (by_uid pods entry.pod_uid) next stats i)
    ∙ regroup (named_by pods entries i)
        (if entry.inode == i then with_pod entry (by_uid pods entry.pod_uid) else none)
        (lookup_cgroup next i)
  where
    regroup : (a b c : Option WorkloadIdentity) → or_else a (or_else b c) ≡ or_else (or_else a b) c
    regroup none b c = refl
    regroup (some a) b c = refl

-- Whatever the index held, after a refresh a cgroup is looked up to the identity of the last entry
-- of the scan for it that is joined to a container of a pod, and is missing where none is.
pub apply-named_by :
    (index : Index) (entries : List CgroupEntry) (pods : List PodRecord) (inode : ℕ)
    → lookup_cgroup (apply index entries pods).0 inode ≡ named_by pods entries inode
unfolding apply lookup_cgroup
apply-named_by index entries pods inode =
    join_from-lookup pods entries [] _ inode ∙ keep (named_by pods entries inode)
  where
    keep : (a : Option WorkloadIdentity) → or_else a none ≡ a
    keep none = refl
    keep (some a) = refl
