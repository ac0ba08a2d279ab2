-- ===== src/Lib.antt =====
-- Ferrum: a verification library beside the sources under crates/.
--
-- A policy goes through four parts of the program. The validator (crates/ferrum-policy) accepts
-- or refuses it; the compiler (crates/ferrum-compiler) encodes its runtime part as an FEBP
-- program; the agent's loader (crates/ferrum-ebpf/src/spec.rs) reads the bytes back behind its
-- own gates; the evaluator (crates/ferrum-ebpf/src/eval.rs) decides each syscall event by the
-- program that was loaded. The events come from ring records of the programs in the kernel
-- (crates/ferrum-ebpf-progs), which crates/ferrum-ebpf/src/event.rs decodes; the prefilter says
-- which records the program never needs, and krules.rs makes of its rules the slots by which the
-- kernel refuses an exec itself.
--
-- On a node the agent (crates/ferrum-agent) drains the ring on a schedule, pumps the records through
-- `handle_event_at`, which joins a record to the workload of its cgroup (crates/ferrum-k8smeta),
-- decides, applies the exceptions by a clock that never goes back, reacts and exports an event.
-- Break-glass (crates/ferrum-breakglass) suspends enforcement for a bounded while.
--
-- Files:
--   Prelude, Prelude/*   the library's names, Boolean tests, lists measured by native numbers
--   Text, Text/*         Rust's `str` as the list of its bytes: comparison, `trim`, UTF-8
--   Prelude/Bits         tables of bit operations
--   Labels, Labels/*     `BTreeMap<String, String>` as an association list in key order
--   Error, Error/*       crates/ferrum-common: `FerrumError`; a message is the constructor that
--                        names its text, with the values that `format!` puts into it
--   Ids                  crates/ferrum-ids: hooked syscalls, bounds, equivalence classes
--   Identity             crates/ferrum-k8smeta/src/lib.rs: `WorkloadIdentity`
--   Api                  crates/ferrum-api/src/types.rs: the policy types of the runtime part
--   Policy/Runtime       crates/ferrum-policy/src/lib.rs: `validate_runtime` and its checks
--   Policy/Loads         the validator against the encoder and the loader
--   Policy/Exceptions    crates/ferrum-policy: `validate_exception` and src/eval.rs, over a clock
--                        that is a parameter
--   Compiler/*           crates/ferrum-compiler/src/encode.rs: `Writer`, `encode_ebpf`; Carries
--                        and Ends join a writer to the reader of what it writes
--   Ebpf/Spec            crates/ferrum-ebpf/src/spec.rs: `EbpfSpec` and its parts
--   Ebpf/Reader          the same file, `Reader`: a read is a function of the bytes left
--   Ebpf/Decode, /*      the same file: `parse_febp`, `parse_febp_with` and the load gates;
--                        Observed and Spared say what the gates are for, apart
--                        from the tests that they make
--   Ebpf/Eval, Eval/*    crates/ferrum-ebpf/src/eval.rs: `decide` and what it is made of
--   Ebpf/Event, Event/*  crates/ferrum-ebpf/src/event.rs: ring records, written, read and turned
--                        into the evaluator's events
--   Ebpf/Prefilter, /*   crates/ferrum-ebpf/src/prefilter.rs: `prefilter_image` and its masks
--   Datapath/Record      crates/ferrum-ebpf-progs/src/lib.rs: the ring record
--   Datapath/Slot, /*    the same file: the matcher that runs in the kernel; Reference is the test
--                        with branches that its mask computes without
--   Datapath/Fill        the same file: how slots and paths are filled in
--   Ebpf/Krules, /*      crates/ferrum-ebpf/src/krules.rs: the slots of a program
--   Agent/Ring, /*       crates/ferrum-agent/src/ring.rs: when the reader sleeps and polls
--   Agent/Clock, /*      crates/ferrum-agent/src/clock.rs: the floor of the wall clock and its file
--   Agent/Respond        crates/ferrum-agent/src/respond.rs: the guards before a signal
--   Agent/React, /*      crates/ferrum-agent/src/lib.rs: `react`
--   Agent/Handle, /*     the same file: `handle_event_at`
--   Agent/Pump, /*       crates/ferrum-agent/src/pump.rs: the loop over raw records
--   K8smeta/*            crates/ferrum-k8smeta: the index of cgroups and the join behind it
--   Breakglass, /*       crates/ferrum-breakglass/src/lib.rs: the checks of a grant
--   Export/Queue, /*     crates/ferrum-export/src/queue.rs: the queue of events and its writer
--   Tests, Tests/*       one sample policy, its encoding, and runs on it
--
-- Texts are lists of bytes, with `IsText` where a Rust `String` is UTF-8 and fits a 16-bit
-- length. A native number stands for an integer; the writers wrap it at its width, the
-- `i32` priority is kept as its bit pattern. All loops are recursion on a list or on a count
-- that was read, so nothing needs fuel.
--
-- What the kernel's `bpf_probe_read_user_str` leaves in a path buffer is the hypothesis
-- `IsCopyOf`; that only some syscalls bear a path is `IsBorne`. Both state how the datapath fills
-- a record. That the record of an exec and the hook hold the same texts, and that these are UTF-8,
-- is `IsRecordOf`; of an `execveat` of a path relative to a directory descriptor the kernel builds
-- another string than the record carries, and of a text that is not UTF-8 the evaluator sees a head.
--
-- The matcher's tests of a slot's lengths wrap around from 145 and 193 on, above every length that
-- `Ebpf/Krules` makes; `IsSlot` has the lengths below these.
--
-- A moment of the agent's clock is a number from `DateTime::<Utc>::MIN_UTC` on, of a break-glass
-- grant a parameter; what `chrono`, the signatures and the parser of JSON answer is a parameter.
-- `ReadsBack` is what the clock's file relies on of the text of a moment: `chrono` parses what it
-- wrote. A write of that file may end at any of its steps, and may leave any bytes in the new file.
--
-- In `handle_event_at` the calls that keep counters and windows of degradation are recorded in
-- their order, and the reads of /proc, the responder and the clock are parameters.
--
-- Not modelled: the kernel programs' access to maps and helpers and the loading of them, the
-- bundle envelope and its signatures, the agent's windows of degradation, the journal of
-- break-glass, the cache of pods, the admission program, the controller, the exporters
-- behind the queue and all network and process I/O.
pub mod Agent
pub mod Breakglass
pub mod Export
pub mod Prelude
pub mod Text
pub mod Error
pub mod Ids
pub mod Labels
pub mod Identity
pub mod K8smeta
pub mod Ebpf
pub mod Api
pub mod Compiler
pub mod Policy
pub mod Tests
pub mod Datapath
