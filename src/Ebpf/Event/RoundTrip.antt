-- ===== src/Ebpf/Event/RoundTrip.antt =====
-- crates/ferrum-ebpf/src/event.rs: a record that is written is read back, and what is refused.
use ferrum.Prelude.{
  ℕ, ◌^◌, ◌<◌, ◌≡◌, refl, subst, ap, ◌∙◌, ◌↔◌, none, some, [], ◌∷◌, ◌++◌, length, length-append,
  take, drop, take-append, drop-append, arith,
}
use ferrum.Text.{Str}
use ferrum.Error.{Message, ok, err, integrity}
use ferrum.Ebpf.Reader.{from_le_bytes}
use ferrum.Compiler.Writer.{to_le_bytes}
use ferrum.Compiler.Carries.{le-to_le_bytes_2, le-to_le_bytes_4}
use ferrum.Datapath.Record.{Event, comm_len, path_len, datapath_abi}
use ferrum.Ebpf.Event.{
  event_wire_len, read_fields, abi_of, decode_event, abi_stamp_mismatch, encode_event,
}

-- A record of this build: each field fits its width, the buffers have their lengths.
pub record IsRecord (event : Event) : Type 0 where
  pub cgroup_fits : event.cgroup_id < 2 ^ 64
  pub pid_fits : event.pid < 2 ^ 32
  pub tgid_fits : event.tgid < 2 ^ 32
  pub nr_fits : event.syscall_nr < 2 ^ 32
  pub stamped : event.pad ≡ datapath_abi
  pub comm_full : length event.comm ≡ comm_len
  pub path_full : length event.path ≡ path_len

le-to_le_bytes_8 : (v : ℕ) → v < 2 ^ 64 → from_le_bytes (to_le_bytes 8 v) ≡ v
unfolding from_le_bytes to_le_bytes
le-to_le_bytes_8 v h = omega arith

fits_16 : datapath_abi < 65536
fits_16 = omega arith

length-encode_event :
    (event : Event) → IsRecord event → length (encode_event event) ≡ event_wire_len
unfolding encode_event
length-encode_event event r =
    omega (arith, length-append event.comm event.path, r.comm_full, r.path_full)

abi_of-encode_event : (event : Event) → IsRecord event → abi_of (encode_event event) ≡ datapath_abi
unfolding abi_of encode_event
abi_of-encode_event event r = le-to_le_bytes_2 event.pad (rw r.stamped fits_16) ∙ r.stamped

decode_event-accepts :
    (bytes : Str)
    → length bytes ≡ event_wire_len
    → abi_of bytes ≡ datapath_abi
    → decode_event bytes ≡ ok (read_fields bytes)
unfolding decode_event
decode_event-accepts bytes e f = ground (arith, e, f)

comm_slice : (comm path : Str) → length comm ≡ comm_len → take comm_len (comm ++ path) ≡ comm
comm_slice comm path e = rw (← e) (take-append comm path)

path_slice :
    (comm path : Str)
    → length comm ≡ comm_len
    → length path ≡ path_len
    → take path_len (drop comm_len (comm ++ path)) ≡ path
path_slice comm path e f =
    rw (← e) (rw (drop-append comm path) (subst (λ n. take n path ≡ path) f (take_all path)))
  where
    take_all : (s : Str) → take (length s) s ≡ s
    take_all [] = refl
    take_all (b ∷ s) = ap (◌∷◌ b) (take_all s)

read_fields-encode_event :
    (event : Event) → IsRecord event → read_fields (encode_event event) ≡ event
unfolding read_fields encode_event
read_fields-encode_event event r =
    let cgroup = le-to_le_bytes_8 event.cgroup_id r.cgroup_fits in
    let pid = le-to_le_bytes_4 event.pid r.pid_fits in
    let tgid = le-to_le_bytes_4 event.tgid r.tgid_fits in
    let nr = le-to_le_bytes_4 event.syscall_nr r.nr_fits in
    let pad = le-to_le_bytes_2 event.pad (rw r.stamped fits_16) in
    let comm = comm_slice event.comm event.path r.comm_full in
    let path = path_slice event.comm event.path r.comm_full r.path_full in
    λ i. record {
      cgroup_id = cgroup i;
      pid = pid i;
      tgid = tgid i;
      syscall_nr = nr i;
      action = event.action;
      flags = event.flags;
      pad = pad i;
      comm = comm i;
      path = path i;
    }

-- A record of this build is read back from the bytes that it is written to.
pub decode_event-encode_event :
    (event : Event) → IsRecord event → decode_event (encode_event event) ≡ ok event
decode_event-encode_event event r =
    decode_event-accepts (encode_event event) (length-encode_event event r)
      (abi_of-encode_event event r)
    ∙ ap ok (read_fields-encode_event event r)

-- A record is read into its fields exactly where it has the length of a record and
-- `abi_stamp_mismatch` reports no stamp, and it is refused for a stamp exactly where
-- `abi_stamp_mismatch` reports that one.
pub decode_event-refusal :
    (bytes : Str)
    → ((decode_event bytes ≡ ok (read_fields bytes))
        ↔ ((length bytes ≡ event_wire_len) × (abi_stamp_mismatch bytes ≡ none)))
      × ((abi : ℕ)
          → (abi_stamp_mismatch bytes ≡ some abi)
            ↔ (decode_event bytes ≡ err (integrity (Message.record_abi abi))))
unfolding decode_event abi_stamp_mismatch
decode_event-refusal bytes = ground arith
