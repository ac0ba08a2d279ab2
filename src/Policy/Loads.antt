-- ===== src/Policy/Loads.antt =====
-- crates/ferrum-policy, crates/ferrum-compiler and crates/ferrum-ebpf: what the validator accepts,
-- encoded, loads.
use ferrum.Prelude.{
  ℕ, ◌≡◌, refl, Bool, true, false, not, ◌&&◌, Option, none, some, List, [], ◌∷◌, map, All, is_empty,
  arith, find_map,
}
use ferrum.Text.{Str, trim, contains}
use ferrum.Text.Laws.{trim_keeps}
use ferrum.Error.{Message, ok}
use ferrum.Error.Laws.{err-ne-ok, >>=-eq-ok, guard-eq-ok}
use ferrum.Ids.{is_datapath_syscall, unobservable_comm, unobservable_path_pattern}
use ferrum.Api.{RuntimeAction, RuntimeRule}
use ferrum.Ebpf.Decode.{
  trim_syscall, unhooked, comm_gap, path_gap, dead_rule_reason, is_kill_or_isolate, is_kill_all,
  parse_febp_with, parse_febp,
}
use ferrum.Ebpf.Decode.Gates.{IsAlive, gate_spec-reject_alive}
use ferrum.Compiler.Encode.{Effects, encode_ebpf}
use ferrum.Compiler.Meaning.{action_of, rule_of, spec_of, IsEncodable}
use ferrum.Compiler.RoundTrip.{encode_ebpf-decode}
use ferrum.Policy.Runtime.{
  kills_or_isolates, validate_rule_action, syscalls_observed, validate_rule_syscalls, bound_error,
  validate_rule_predicates, is_kill_all_rule, validate_rule_body, validate_rules, default_error,
  validate_runtime,
}

-- The tests that the validator and the loader share.
pub record IsFireable (r : RuntimeRule) : Type 0 where
  pub observed : All (λ s. is_datapath_syscall (trim s) ≡ true) r.syscalls
  pub comm : unobservable_comm r.match_on.comm_in ≡ none
  pub prefix : unobservable_path_pattern r.match_on.path_prefix ≡ none
  pub suffix : unobservable_path_pattern r.match_on.path_suffix ≡ none
  pub narrow : is_kill_all_rule r ≡ false

All-map :
    {A B : Type 0} (f : A → B) (P : A → Type 0) (Q : B → Type 0)
    → ((x : A) → P x → Q (f x))
    → (xs : List A) → All P xs
    → All Q (map f xs)
All-map f P Q g [] h = tt
All-map f P Q g (x ∷ xs) h = (g x h.0, All-map f P Q g xs h.1)

syscalls_observed-ok :
    (rule_id : Str) (syscalls : List Str)
    → syscalls_observed rule_id syscalls ≡ ok tt
    → All (λ s. is_datapath_syscall (trim s) ≡ true) syscalls
unfolding syscalls_observed
syscalls_observed-ok rule_id [] h = tt
syscalls_observed-ok rule_id (s ∷ syscalls) h =
    let (known, rest) =
      guard-eq-ok (not (is_datapath_syscall (trim s))) _ (syscalls_observed rule_id syscalls) h in
    (ground arith, syscalls_observed-ok rule_id syscalls rest)

bound-ok :
    (o : Option (Str × ℕ)) (message : Str → ℕ → Message) → bound_error o message ≡ ok tt → o ≡ none
bound-ok none message h = refl
bound-ok (some literal) message h = absurd (err-ne-ok _ _ h)

body_fires : (r : RuntimeRule) → validate_rule_body r ≡ ok tt → IsFireable r
unfolding validate_rule_body validate_rule_syscalls validate_rule_predicates
body_fires r h =
    let (_, _, h1) = >>=-eq-ok (validate_rule_action r.id r.action) _ h in
    let (_, named, h2) = >>=-eq-ok (validate_rule_syscalls r.id r.syscalls) _ h1 in
    let (_, seen, _) = >>=-eq-ok (syscalls_observed r.id r.syscalls) _ named in
    let (_, bounded, h3) =
      >>=-eq-ok
        (validate_rule_predicates r.id r.match_on.comm_in r.match_on.path_prefix
          r.match_on.path_suffix)
        _ h2 in
    let (_, comm, paths) =
      >>=-eq-ok (bound_error (unobservable_comm r.match_on.comm_in) (Message.unseen_comm r.id)) _
        bounded in
    let (_, prefix, suffix) =
      >>=-eq-ok
        (bound_error (unobservable_path_pattern r.match_on.path_prefix)
          (Message.unseen_prefix r.id))
        _ paths in
    record {
      observed = syscalls_observed-ok r.id r.syscalls seen;
      comm = bound-ok (unobservable_comm r.match_on.comm_in) _ comm;
      prefix = bound-ok (unobservable_path_pattern r.match_on.path_prefix) _ prefix;
      suffix = bound-ok (unobservable_path_pattern r.match_on.path_suffix) _ suffix;
      narrow = (guard-eq-ok (is_kill_all_rule r) _ (ok tt) h3).0;
    }

rules_fire :
    (ids : List Str) (rules : List RuntimeRule)
    → validate_rules ids rules ≡ ok tt
    → All IsFireable rules
unfolding validate_rules
rules_fire ids [] h = tt
rules_fire ids (r ∷ rules) h =
    let (_, h1) = guard-eq-ok (is_empty (trim r.id)) _ _ h in
    let (_, h2) = guard-eq-ok (contains ids r.id) _ _ h1 in
    let (_, body, rest) = >>=-eq-ok (validate_rule_body r) _ h2 in
    (body_fires r body, rules_fire (r.id ∷ ids) rules rest)

trim_syscall-trim : (s : Str) → trim_syscall s ≡ trim s
unfolding trim_syscall
trim_syscall-trim s = ground (arith, trim_keeps s)

unhooked-none :
    (id : Str) (syscalls : List Str)
    → All (λ s. is_datapath_syscall (trim s) ≡ true) syscalls
    → find_map (unhooked id) (map trim_syscall syscalls) ≡ none
unfolding unhooked
unhooked-none id [] h = refl
unhooked-none id (s ∷ syscalls) h = rw (hooked, find_map) (unhooked-none id syscalls h.1)
  where
    hooked : unhooked id (trim_syscall s) ≡ none
    hooked = rw (trim_syscall-trim s) (rw h.0)

rule-IsAlive : (r : RuntimeRule) → IsFireable r → IsAlive (rule_of r)
unfolding dead_rule_reason comm_gap path_gap
rule-IsAlive r f =
    rw (unhooked-none r.id r.syscalls f.observed) (rw f.comm (rw f.prefix (rw f.suffix refl)))

kill_all-rule_of : (r : RuntimeRule) → is_kill_all_rule r ≡ false → is_kill_all (rule_of r) ≡ false
unfolding is_kill_all_rule is_kill_all
kill_all-rule_of r h =
    same_tests r.action r.syscalls (is_empty r.match_on.comm_in) (is_empty r.match_on.path_prefix)
      (is_empty r.match_on.path_suffix) h
  where
    same_tests :
        (a : RuntimeAction) (ss : List Str) (c p x : Bool)
        → (kills_or_isolates a && c && p && x && is_empty ss) ≡ false
        → (is_kill_or_isolate (action_of a) && is_empty (map trim_syscall ss) && c && p && x)
          ≡ false
    same_tests a [] c p x e = ground arith
    same_tests a (s ∷ ss) c p x e = ground arith

default_spares :
    (a : RuntimeAction) → default_error a ≡ ok tt → is_kill_or_isolate (action_of a) ≡ false
default_spares a h = ground arith

-- A policy that the validator accepts, encoded, loads on the strict path, as the program that it
-- means.
pub validate_runtime-parse_febp :
    (fx : Effects)
    → IsEncodable fx
    → validate_runtime fx.runtime ≡ ok tt
    → (bytes : Str) × (encode_ebpf fx ≡ ok bytes) × (parse_febp bytes ≡ ok (spec_of fx))
unfolding validate_runtime parse_febp parse_febp_with
validate_runtime-parse_febp fx encodable valid =
    let (bytes, written, read) = encode_ebpf-decode fx encodable in
    let (_, spares, rules_valid) = >>=-eq-ok (default_error fx.runtime.default_action) _ valid in
    let fires = rules_fire [] fx.runtime.rules rules_valid in
    (
      bytes,
      written,
      rw (read, parse_febp_with)
          (rw
            (gate_spec-reject_alive (spec_of fx)
              (record {
                default_spares = default_spares fx.runtime.default_action spares;
                rules_narrow =
                    All-map rule_of IsFireable (λ r. is_kill_all r ≡ false)
                      (λ r f. kill_all-rule_of r f.narrow) fx.runtime.rules fires;
              })
              (All-map rule_of IsFireable IsAlive rule-IsAlive fx.runtime.rules fires))
            refl),
    )
