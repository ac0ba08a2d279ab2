-- ===== src/Api.antt =====
-- crates/ferrum-api/src/types.rs: the policy types of `ferrum.io/v1` that the crates share.
use ferrum.Prelude.{Bool, List}
use ferrum.Text.{Str}
use ferrum.Labels.{Labels}

pub data PolicyMode : Type 0 where
  observe audit enforce : PolicyMode

pub data RuntimeAction : Type 0 where
  allow audit deny kill isolate : RuntimeAction

pub record LabelSelectorRequirement : Type 0 where
  pub key : Str
  pub operator : Str
  pub values : List Str

pub record LabelSelector : Type 0 where
  pub match_labels : Labels
  pub match_expressions : List LabelSelectorRequirement

pub record ImageSelector : Type 0 where
  pub registries_allow : List Str
  pub require_digest : Bool

pub record PolicySelector : Type 0 where
  pub cluster_selector : LabelSelector
  pub namespace_selector : LabelSelector
  pub workload_selector : LabelSelector
  pub service_account_selector : LabelSelector
  pub image : ImageSelector

pub record RuntimeMatch : Type 0 where
  pub comm_in : List Str
  pub container_only : Bool
  pub path_prefix : List Str
  pub path_suffix : List Str
  pub not_agent_self : Bool

pub record RuntimeRule : Type 0 where
  pub id : Str
  pub syscalls : List Str
  pub match_on : RuntimeMatch
  pub action : RuntimeAction

pub record RuntimeSpec : Type 0 where
  pub default_action : RuntimeAction
  pub rules : List RuntimeRule
