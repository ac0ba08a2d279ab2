-- ===== src/Compiler/RoundTrip.antt =====
-- crates/ferrum-compiler/src/encode.rs against crates/ferrum-ebpf/src/spec.rs: the loader reads
-- back the program that the compiler wrote.
use ferrum.Prelude.{
  suc, ◌≤◌, ◌≡◌, refl, true, List, [], ◌∷◌, ◌++◌, append-nil, append_assoc, length, map, All,
  All-append, All-map, arith, subst, sym,
}
use ferrum.Text.{Str, str_lt}
use ferrum.Labels.{Labels, insert}
use ferrum.Labels.Laws.{IsSorted, insert_last}
use ferrum.Error.{Message, ok}
use ferrum.Error.{◌>>=◌ as ◌>>>◌}
use ferrum.Ids.{agent_abi}
use ferrum.Api
use ferrum.Api.{PolicyMode, RuntimeAction, RuntimeRule}
use ferrum.Ebpf.Spec.{LabelRequirement, mode_from_u8, action_from_u8}
use ferrum.Ebpf.Reader.{
  ◌>>=◌, pure, u8, u16, u32, i32, bool, string, str_list, repeat, expect_magic,
}
use ferrum.Ebpf.Decode.{
  decode_labels, decode_requirement, decode_label_selector, decode_selector, decode_rule, check_abi,
  decode_spec,
}
use ferrum.Compiler.Writer.{
  put_magic, put_u32, put_i32, put_u8, put_u16, u16_max, u16_from, put_str, put_each, put_str_list,
  put_bool,
}
use ferrum.Compiler.Encode.{
  ebpf_magic, Effects, mode_to_u8, action_to_u8, put_label, put_requirement, encode_label_selector,
  encode_selector, encode_rule, put_header, encode_ebpf,
}
use ferrum.Compiler.Meaning.{
  mode_of, action_of, requirement_of, labels_of, selector_of, rule_of, spec_of, IsRequirement,
  IsSelector, IsPolicySelector, IsRule, IsEncodable,
}
use ferrum.Compiler.Ends.{
  Ends, Ends-then, Ends-check, Ends-last, Ends-seq, Ends-lift, Ends-count, Carries-magic,
}
use ferrum.Compiler.Carries.{
  Carries-assoc, Carries-pure, Carries, Carries-seq, Carries-last, Carries-count, Carries-u8,
  Carries-u16, Carries-u32, Carries-i32, Carries-bool, Carries-lift, Carries-string, Carries-each,
  Carries-str_list, IsText,
}

-- The labels, from any map whose keys are below theirs.
Carries-labels :
    (m kvs : Labels)
    → All (λ kv. IsText kv.0) kvs
    → All (λ kv. IsText kv.1) kvs
    → IsSorted kvs
    → All (λ kv. All (λ e. str_lt e.0 kv.0 ≡ true) m) kvs
    → Carries (put_each put_label kvs) (decode_labels (length kvs) m) (m ++ kvs)
unfolding put_each put_label decode_labels
Carries-labels m [] ks vs sorted above =
    subst (Carries (put_each put_label []) (pure m)) (sym (append-nil m)) (Carries-pure m)
Carries-labels m ((k, v) ∷ kvs) ks vs sorted above =
    Carries-assoc (put_str k) (put_str v) (put_each put_label kvs)
      (decode_labels (suc (length kvs)) m) (m ++ ((k, v) ∷ kvs))
      (Carries-seq (put_str k) (λ w. put_str v w >>> put_each put_label kvs) string
        (λ key. string >>= λ value. decode_labels (length kvs) (insert key value m)) k
        (m ++ ((k, v) ∷ kvs)) (Carries-string k ks.0)
        (Carries-seq (put_str v) (put_each put_label kvs) string
          (λ value. decode_labels (length kvs) (insert k value m)) v (m ++ ((k, v) ∷ kvs))
          (Carries-string v vs.0)
          (subst
            (λ m'.
              Carries (put_each put_label kvs) (decode_labels (length kvs) m')
                (m ++ ((k, v) ∷ kvs)))
            (sym (insert_last k v m above.0))
            (subst
              (Carries (put_each put_label kvs) (decode_labels (length kvs) (m ++ ((k, v) ∷ []))))
              (append_assoc m ((k, v) ∷ []) kvs)
              (Carries-labels (m ++ ((k, v) ∷ [])) kvs ks.1 vs.1 sorted.1
                (above_more m k v kvs sorted.0 above.1))))))
  where
    above_more :
        (m : Labels) (k v : Str) (kvs : Labels)
        → All (λ e. str_lt k e.0 ≡ true) kvs
        → All (λ kv. All (λ e. str_lt e.0 kv.0 ≡ true) m) kvs
        → All (λ kv. All (λ e. str_lt e.0 kv.0 ≡ true) (m ++ ((k, v) ∷ []))) kvs
    above_more m k v [] lt h = tt
    above_more m k v (kv ∷ kvs) lt h = (
      All-append (λ e. str_lt e.0 kv.0 ≡ true) m ((k, v) ∷ []) h.0 (lt.0, tt),
      above_more m k v kvs lt.1 h.1,
    )

Carries-requirement :
    (r : Api.LabelSelectorRequirement)
    → IsRequirement r
    → Carries (put_requirement r) decode_requirement (requirement_of r)
unfolding put_requirement decode_requirement
Carries-requirement r t =
    Carries-seq (put_str r.key) _ string _ r.key (requirement_of r) (Carries-string r.key t.key) (
      Carries-seq (put_str r.operator) _ string _ r.operator (requirement_of r)
        (Carries-string r.operator t.operator)
        (Carries-last (put_str_list r.values) str_list
          (λ values. record { key = r.key; operator = r.operator; values = values }) r.values
          (Carries-str_list r.values t.values)))

All-above_nil :
    (kvs : Labels) → All (λ kv. All {A = Str × Str} (λ e. str_lt e.0 kv.0 ≡ true) []) kvs
All-above_nil [] = tt
All-above_nil (kv ∷ kvs) = (tt, All-above_nil kvs)

Carries-expressions :
    {B : Type 0} (xs : List Api.LabelSelectorRequirement) (h : List LabelRequirement → B)
    → length xs ≤ u16_max
    → All IsRequirement xs
    → Carries
        (λ w. u16_from (length xs) Message.long_expressions >>> λ count.
          put_each put_requirement xs (put_u16 count w))
        (u16 >>= λ count. repeat count decode_requirement >>= λ ys. pure (h ys))
        (h (map requirement_of xs))
Carries-expressions xs h le t =
    Carries-count (length xs) Message.long_expressions
      (λ count w. put_each put_requirement xs (put_u16 count w)) _ (h (map requirement_of xs)) le
      (Carries-seq (λ w. ok (put_u16 (length xs) w)) (put_each put_requirement xs) u16
        (λ count. repeat count decode_requirement >>= λ ys. pure (h ys)) (length xs)
        (h (map requirement_of xs)) (Carries-u16 (length xs) le)
        (Carries-last (put_each put_requirement xs) (repeat (length xs) decode_requirement) h
          (map requirement_of xs)
          (Carries-each put_requirement decode_requirement requirement_of xs (
            All-map IsRequirement
              (λ x. Carries (put_requirement x) decode_requirement (requirement_of x))
              Carries-requirement xs t))))

Carries-label_selector :
    (s : Api.LabelSelector)
    → IsSelector s
    → Carries (encode_label_selector s) decode_label_selector (labels_of s)
unfolding encode_label_selector decode_label_selector
Carries-label_selector s t =
    Carries-count (length s.match_labels) Message.long_labels _ _ (labels_of s) t.labels_fit (
      Carries-seq (λ w. ok (put_u16 (length s.match_labels) w)) _ u16 _ (length s.match_labels)
        (labels_of s) (Carries-u16 (length s.match_labels) t.labels_fit)
        (Carries-seq (put_each put_label s.match_labels) _ _ _ s.match_labels (labels_of s)
          (Carries-labels [] s.match_labels t.keys t.values t.labels_sorted
            (All-above_nil s.match_labels))
          (Carries-expressions s.match_expressions
            (λ es. record { match_labels = s.match_labels; match_expressions = es })
            t.expressions_fit t.expressions)))

Carries-selector :
    (s : Api.PolicySelector)
    → IsPolicySelector s
    → Carries (encode_selector s) decode_selector (selector_of s)
unfolding encode_selector decode_selector
Carries-selector s t =
    Carries-seq (encode_label_selector s.cluster_selector) _ _ _ (labels_of s.cluster_selector) _
      (Carries-label_selector s.cluster_selector t.cluster)
      (Carries-seq (encode_label_selector s.namespace_selector) _ _ _
        (labels_of s.namespace_selector) _ (Carries-label_selector s.namespace_selector t.namespace)
        (Carries-seq (encode_label_selector s.workload_selector) _ _ _
          (labels_of s.workload_selector) _ (Carries-label_selector s.workload_selector t.workload)
          (Carries-seq (encode_label_selector s.service_account_selector) _ _ _
            (labels_of s.service_account_selector) _
            (Carries-label_selector s.service_account_selector t.service_account)
            (Carries-seq (put_str_list s.image.registries_allow) _ _ _ s.image.registries_allow _
              (Carries-str_list s.image.registries_allow t.registries)
              (Carries-last (λ w. ok (put_bool s.image.require_digest w)) bool _
                s.image.require_digest (Carries-bool s.image.require_digest))))))

action_of-u8 : (a : RuntimeAction) → action_from_u8 (action_to_u8 a) ≡ ok (action_of a)
unfolding action_from_u8
action_of-u8 a = ground arith

mode_of-u8 : (m : PolicyMode) → mode_from_u8 (mode_to_u8 m) ≡ ok (mode_of m)
unfolding mode_from_u8
mode_of-u8 m = ground arith

Carries-rule : (r : RuntimeRule) → IsRule r → Carries (encode_rule r) decode_rule (rule_of r)
unfolding encode_rule decode_rule
Carries-rule r t = Carries-seq (put_str r.id) _ string _ r.id _ (Carries-string r.id t.id) (
    Carries-seq (put_str_list r.syscalls) _ str_list _ r.syscalls _
      (Carries-str_list r.syscalls t.syscalls)
      (Carries-seq (λ w. ok (put_u8 (action_to_u8 r.action) w)) _ u8 _ (action_to_u8 r.action) _
        (Carries-u8 (action_to_u8 r.action))
        (Carries-lift _ (action_from_u8 (action_to_u8 r.action)) _ (action_of r.action) _
          (action_of-u8 r.action)
          (Carries-seq (put_str_list r.match_on.comm_in) _ str_list _ r.match_on.comm_in _
            (Carries-str_list r.match_on.comm_in t.comm_in)
            (Carries-seq (λ w. ok (put_bool r.match_on.container_only w)) _ bool _
              r.match_on.container_only _ (Carries-bool r.match_on.container_only)
              (Carries-seq (put_str_list r.match_on.path_prefix) _ str_list _ r.match_on.path_prefix
                _ (Carries-str_list r.match_on.path_prefix t.path_prefix)
                (Carries-seq (put_str_list r.match_on.path_suffix) _ str_list _
                  r.match_on.path_suffix _ (Carries-str_list r.match_on.path_suffix t.path_suffix)
                  (Carries-last (λ w. ok (put_bool r.match_on.not_agent_self w)) bool _
                    r.match_on.not_agent_self (Carries-bool r.match_on.not_agent_self)))))))))

encoded :
    (fx : Effects)
    → IsEncodable fx
    → Ends
        (λ w. encode_selector fx.selector (put_header fx w) >>> λ w.
          u16_from (length fx.runtime.rules) Message.long_rules >>> λ count.
          put_each encode_rule fx.runtime.rules (put_u16 count w))
        decode_spec
        (spec_of fx)
unfolding put_header decode_spec check_abi
encoded fx t =
    Ends-then (λ w. ok (put_magic ebpf_magic w)) _ (expect_magic ebpf_magic) _ _ Carries-magic
      (Ends-seq (λ w. ok (put_u32 agent_abi w)) _ u32 _ agent_abi _
        (Carries-u32 agent_abi (omega arith))
        (Ends-check _ (check_abi agent_abi) _ _ refl (
          Ends-seq (λ w. ok (put_u8 (mode_to_u8 fx.mode) w)) _ u8 _ (mode_to_u8 fx.mode) _
            (Carries-u8 (mode_to_u8 fx.mode))
            (Ends-lift _ (mode_from_u8 (mode_to_u8 fx.mode)) _ (mode_of fx.mode) _
              (mode_of-u8 fx.mode)
              (Ends-seq (λ w. ok (put_bool fx.disabled w)) _ bool _ fx.disabled _
                (Carries-bool fx.disabled)
                (Ends-seq (λ w. ok (put_i32 fx.priority w)) _ i32 _ fx.priority _
                  (Carries-i32 fx.priority t.priority)
                  (Ends-seq (λ w. ok (put_u8 (action_to_u8 fx.runtime.default_action) w)) _ u8 _
                    (action_to_u8 fx.runtime.default_action) _
                    (Carries-u8 (action_to_u8 fx.runtime.default_action))
                    (Ends-lift _ (action_from_u8 (action_to_u8 fx.runtime.default_action)) _
                      (action_of fx.runtime.default_action) _
                      (action_of-u8 fx.runtime.default_action)
                      (Ends-seq (encode_selector fx.selector) _ decode_selector _
                        (selector_of fx.selector) _ (Carries-selector fx.selector t.selector)
                        (Ends-count (length fx.runtime.rules) Message.long_rules _ _ _ t.rules_fit (
                          Ends-seq (λ w. ok (put_u16 (length fx.runtime.rules) w)) _ u16 _
                            (length fx.runtime.rules) _
                            (Carries-u16 (length fx.runtime.rules) t.rules_fit)
                            (Ends-last (put_each encode_rule fx.runtime.rules)
                              (repeat (length fx.runtime.rules) decode_rule) _
                              (map rule_of fx.runtime.rules)
                              (Carries-each encode_rule decode_rule rule_of fx.runtime.rules (
                                All-map IsRule
                                  (λ r. Carries (encode_rule r) decode_rule (rule_of r))
                                  Carries-rule fx.runtime.rules t.rules))))))))))))))

-- A policy whose counts, lengths, texts and label maps can be encoded is encoded, and the reads of
-- the loader take the bytes back to the program that the policy means, with no byte left.
pub encode_ebpf-decode :
    (fx : Effects)
    → IsEncodable fx
    → (bytes : Str) × (encode_ebpf fx ≡ ok bytes) × (decode_spec bytes ≡ ok (spec_of fx, []))
unfolding encode_ebpf
encode_ebpf-decode fx t = let e = encoded fx t in (e.bytes, e.writes [], e.reads)
