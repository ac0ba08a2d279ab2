-- ===== src/K8smeta/Resolver/Owned.antt =====
-- crates/ferrum-k8smeta/src/resolver.rs: a lookup never answers with another pod.
use ferrum.Prelude.{
  ℕ, ◌≡◌, refl, sym, subst, ◌∙◌, Bool, true, false, Option, none, some, List, [], ◌∷◌, ◌==◌,
  if◌then◌else◌, arith,
}
use ferrum.Text.{Str, str_eq}
use ferrum.Text.Laws.{str_eq_iff}
use ferrum.Identity.{WorkloadIdentity}
use ferrum.K8smeta.Index.{Index, lookup_cgroup}
use ferrum.K8smeta.Resolver.{
  ContainerRecord, PodRecord, CgroupEntry, container_id_matches, first_match, container_by_id,
  identity_for, by_uid, apply,
}
use ferrum.K8smeta.Resolver.Joined.{with_pod, joins, or_else, named_by, apply-named_by}

pub data In {ℓ} {A : Type ℓ} (x : A) : List A → Type ℓ where
  here : {xs : List A} → In x (x ∷ xs)
  there : {y : A} {xs : List A} → In x xs → In x (y ∷ xs)

-- The identity is that of a container, which the entry of the scan names, of the pod with the uid
-- that the entry names.
pub record IsOwned (entries : List CgroupEntry) (pods : List PodRecord) (inode : ℕ)
    (identity : WorkloadIdentity) : Type 0 where
  pub entry : CgroupEntry
  pub pod : PodRecord
  pub container : ContainerRecord
  pub scanned : In entry entries
  pub known : In pod pods
  pub reported : In container pod.containers
  pub inode_of : entry.inode ≡ inode
  pub uid : pod.uid ≡ entry.pod_uid
  pub id : container_id_matches entry.container_id container.id ≡ true
  pub identity_is : identity ≡ identity_for pod container

by_uid-In :
    (pods : List PodRecord) (uid : Str) (pod : PodRecord)
    → by_uid pods uid ≡ some pod
    → In pod pods × (pod.uid ≡ uid)
unfolding by_uid
by_uid-In [] uid pod h = cc
by_uid-In (p ∷ pods) uid pod h = pick (by_uid pods uid) refl (by_uid-In pods uid pod) h
  where
    mine :
        (b : Bool)
        → str_eq p.uid uid ≡ b
        → (if b then some p else none) ≡ some pod
        → In pod (p ∷ pods) × (pod.uid ≡ uid)
    mine true e h =
        let same : p ≡ pod = cc in
        subst (λ q. In q (p ∷ pods) × (q.uid ≡ uid)) same (here, (str_eq_iff p.uid uid).0 e)
    mine false e h = cc

    pick :
        (o : Option PodRecord)
        → by_uid pods uid ≡ o
        → (by_uid pods uid ≡ some pod → In pod pods × (pod.uid ≡ uid))
        → elim o [ some later ↦ some later | none ↦ if str_eq p.uid uid then some p else none ]
          ≡ some pod
        → In pod (p ∷ pods) × (pod.uid ≡ uid)
    pick none e f h = mine (str_eq p.uid uid) refl h
    pick (some later) e f h = let (inside, same) = f (e ∙ h) in (there inside, same)

first_match-In :
    (id : Str) (containers : List ContainerRecord) (container : ContainerRecord)
    → first_match id containers ≡ some container
    → In container containers × (container_id_matches id container.id ≡ true)
first_match-In id [] container h = cc
first_match-In id (c ∷ cs) container h =
    pick (container_id_matches id c.id) refl (first_match-In id cs container) h
  where
    pick :
        (b : Bool)
        → container_id_matches id c.id ≡ b
        → (first_match id cs ≡ some container
            → In container cs × (container_id_matches id container.id ≡ true))
        → (if b then some c else first_match id cs) ≡ some container
        → In container (c ∷ cs) × (container_id_matches id container.id ≡ true)
    pick true e f h =
        let same : c ≡ container = cc in
        subst (λ q. In q (c ∷ cs) × (container_id_matches id q.id ≡ true)) same (here, e)
    pick false e f h = let (inside, fits) = f h in (there inside, fits)

joins-IsOwned :
    (entries : List CgroupEntry) (pods : List PodRecord) (entry : CgroupEntry)
    (identity : WorkloadIdentity)
    → In entry entries
    → joins pods entry ≡ some identity
    → IsOwned entries pods entry.inode identity
unfolding joins container_by_id
joins-IsOwned entries pods entry identity inside h = pod_found (by_uid pods entry.pod_uid) refl h
  where
    container_found :
        (pod : PodRecord) (o : Option ContainerRecord)
        → by_uid pods entry.pod_uid ≡ some pod
        → first_match entry.container_id pod.containers ≡ o
        → elim o [ none ↦ none | some container ↦ some (identity_for pod container) ]
          ≡ some identity
        → IsOwned entries pods entry.inode identity
    container_found pod none e f h = cc
    container_found pod (some container) e f h =
        let (known, uid) = by_uid-In pods entry.pod_uid pod e in
        let (reported, fits) = first_match-In entry.container_id pod.containers container f in
        record {
          entry = entry;
          pod = pod;
          container = container;
          scanned = inside;
          known = known;
          reported = reported;
          inode_of = refl;
          uid = uid;
          id = fits;
          identity_is = cc;
        }

    pod_found :
        (o : Option PodRecord)
        → by_uid pods entry.pod_uid ≡ o
        → with_pod entry o ≡ some identity
        → IsOwned entries pods entry.inode identity
    pod_found none e h = cc
    pod_found (some pod) e h =
        container_found pod (first_match entry.container_id pod.containers) e refl h

IsOwned-there :
    {entries : List CgroupEntry} {pods : List PodRecord} {inode : ℕ} {identity : WorkloadIdentity}
    (entry : CgroupEntry)
    → IsOwned entries pods inode identity
    → IsOwned (entry ∷ entries) pods inode identity
IsOwned-there entry o = record {
  entry = o.entry;
  pod = o.pod;
  container = o.container;
  scanned = there o.scanned;
  known = o.known;
  reported = o.reported;
  inode_of = o.inode_of;
  uid = o.uid;
  id = o.id;
  identity_is = o.identity_is;
}

named_by-IsOwned :
    (pods : List PodRecord) (entries : List CgroupEntry) (inode : ℕ) (identity : WorkloadIdentity)
    → named_by pods entries inode ≡ some identity
    → IsOwned entries pods inode identity
unfolding named_by
named_by-IsOwned pods [] inode identity h = cc
named_by-IsOwned pods (entry ∷ entries) inode identity h =
    pick (named_by pods entries inode) refl (named_by-IsOwned pods entries inode identity) h
  where
    same : (m n : ℕ) → (m == n) ≡ true → m ≡ n
    same m n e = ground (arith, e)

    mine :
        (b : Bool)
        → (entry.inode == inode) ≡ b
        → (if b then joins pods entry else none) ≡ some identity
        → IsOwned (entry ∷ entries) pods inode identity
    mine true e h =
        subst (λ i. IsOwned (entry ∷ entries) pods i identity) (same entry.inode inode e)
          (joins-IsOwned (entry ∷ entries) pods entry identity here h)
    mine false e h = cc

    pick :
        (o : Option WorkloadIdentity)
        → named_by pods entries inode ≡ o
        → (named_by pods entries inode ≡ some identity → IsOwned entries pods inode identity)
        → or_else o (if entry.inode == inode then joins pods entry else none) ≡ some identity
        → IsOwned (entry ∷ entries) pods inode identity
    pick none e f h = mine (entry.inode == inode) refl h
    pick (some id) e f h = IsOwned-there entry (f (e ∙ h))

-- After a refresh a cgroup that is found is that of a container that the scan named, of the pod
-- with the uid that the scan named, whatever the index held before.
pub apply-IsOwned :
    (index : Index) (entries : List CgroupEntry) (pods : List PodRecord) (inode : ℕ)
    (identity : WorkloadIdentity)
    → lookup_cgroup (apply index entries pods).0 inode ≡ some identity
    → IsOwned entries pods inode identity
apply-IsOwned index entries pods inode identity h =
    named_by-IsOwned pods entries inode identity (sym (apply-named_by index entries pods inode) ∙ h)
