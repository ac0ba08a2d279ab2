-- ===== src/K8smeta/Index.antt =====
-- crates/ferrum-k8smeta/src/index.rs: the index from a cgroup's inode to its workload. A map is the
-- list of its entries, each key once, the last one inserted first.
use ferrum.Prelude.{ℕ, Option, none, some, List, [], ◌∷◌, ◌==◌, if◌then◌else◌}
use ferrum.Identity.{WorkloadIdentity}

abbrev pub Index : Type 0
Index = List (ℕ × WorkloadIdentity)

-- The map that `remove` leaves.
unfoldable pub remove : ℕ → Index → Index
remove inode [] = []
remove inode ((k, identity) ∷ index) =
    let rest = remove inode index in if k == inode then rest else (k, identity) ∷ rest

unfoldable pub insert : ℕ → WorkloadIdentity → Index → Index
unfolding remove
insert inode identity index = (inode, identity) ∷ remove inode index

-- `none` is the error that the cgroup is not in the cache.
unfoldable pub lookup_cgroup : Index → ℕ → Option WorkloadIdentity
lookup_cgroup [] inode = none
lookup_cgroup ((k, identity) ∷ index) inode =
    let rest = lookup_cgroup index inode in if k == inode then some identity else rest
