-- ===== src/Tests/Pods.antt =====
-- The pump and the resolver at concrete inputs.
use ferrum.Prelude.{ℕ, ◌+◌, ◌≡◌, refl, true, none, some, List, [], ◌∷◌, ◌++◌, replicate}
use ferrum.Text.{Str, str, str_eq, starts_with}
use ferrum.Datapath.Record.{Event, datapath_abi}
use ferrum.Ebpf.Event.{x86_64, encode_event}
use ferrum.Agent.Pump.{Calls, pump_records}
use ferrum.Agent.Pump.Complete.{is_record, count, total, CountsEvents, pump_records-IsPumped}
use ferrum.K8smeta.Index.{Index, lookup_cgroup}
use ferrum.K8smeta.Resolver.{ContainerRecord, PodRecord, CgroupEntry, apply, identity_for}
use ferrum.K8smeta.Resolver.Joined.{named_by, apply-named_by}
use ferrum.K8smeta.Resolver.Owned.{IsOwned, apply-IsOwned}

-- An agent that is the number of the events that it handled.
abbrev counting : Calls ℕ
counting = record {
  record_decode_success = λ n. n;
  record_unknown_syscall = λ n. n;
  handle_event = λ event n. n + 1;
  record_datapath_abi_mismatch = λ stamp n. n;
  record_decode_failure = λ n. n;
}

counting-CountsEvents : CountsEvents counting (λ n. n)
counting-CountsEvents = record {
  handled = λ event n. refl;
  decoded = λ n. refl;
  unknown = λ n. refl;
  stamped = λ stamp n. refl;
  malformed = λ n. refl;
}

abbrev exec : Event
exec = record {
  cgroup_id = 7;
  pid = 41;
  tgid = 40;
  syscall_nr = 59;
  action = 0;
  flags = 1;
  pad = datapath_abi;
  comm = str "sh" ++ replicate 14 0;
  path = str "/tmp/x" ++ replicate 250 0;
}

abbrev records : List Str
records = encode_event exec ∷ str "short" ∷ []

pump_records-IsPumped_example :
    (total (pump_records counting x86_64 records 0).1 ≡ 2)
    × ((pump_records counting x86_64 records 0).1.decode_failed + count is_record records ≡ 2)
    × ((pump_records counting x86_64 records 0).0 ≡ 0 + count is_record records)
pump_records-IsPumped_example =
    pump_records-IsPumped counting x86_64 (λ n. n) records 0 counting-CountsEvents

abbrev app : ContainerRecord
app = record {
  name = str "app";
  id = str "0123456789abcdef";
  image = str "registry/app:1";
  image_digest = str "sha256:aa";
}

abbrev web : PodRecord
web = record {
  uid = str "u1";
  namespace = str "prod";
  name = str "web";
  node_name = str "a";
  service_account = str "sa";
  resource_version = str "1";
  labels = [];
  namespace_labels = [];
  service_account_labels = [];
  namespace_labels_observed = true;
  service_account_labels_observed = true;
  containers = app ∷ [];
}

-- The driver cut the name of the container.
abbrev scan : List CgroupEntry
scan =
    record { inode = 7; path = str "/c"; pod_uid = str "u1"; container_id = str "0123456789ab" }
    ∷ record { inode = 8; path = str "/d"; pod_uid = str "u2"; container_id = str "0123456789ab" }
    ∷ []

abbrev stale : Index
stale = (8, identity_for web app) ∷ []

apply-named_by_example :
    lookup_cgroup (apply stale scan (web ∷ [])).0 8 ≡ named_by (web ∷ []) scan 8
apply-named_by_example = apply-named_by stale scan (web ∷ []) 8

found : lookup_cgroup (apply stale scan (web ∷ [])).0 7 ≡ some (identity_for web app)
unfolding apply lookup_cgroup str_eq starts_with
found = refl

-- The pod of the other cgroup is not known, and what the index held of it is gone.
evicted : lookup_cgroup (apply stale scan (web ∷ [])).0 8 ≡ none
unfolding apply lookup_cgroup str_eq starts_with
evicted = refl

apply-IsOwned_example : IsOwned scan (web ∷ []) 7 (identity_for web app)
apply-IsOwned_example = apply-IsOwned stale scan (web ∷ []) 7 (identity_for web app) found
