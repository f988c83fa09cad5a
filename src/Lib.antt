-- ===== src/Lib.antt =====
-- The media path of AgoraLink: how an encoded video frame becomes datagrams, how lost datagrams are
-- repaired, and how the receiver puts frames together again. Paths are from the repository's root.
--
-- Wire/Media models `MediaPacket` of rust-native/agoralink_media/src/main.rs (`encode`,
-- `encode_with_udp_payload_size`, `decode`) with its limits. Wire/Nack models `NackPacket` of repair.rs and
-- Wire/Fec the parity payload `FecParity` of fec.rs, in the same directory. An encoder and a decoder
-- return a result with an error of the model's own in place of the source's string; the tests stand in
-- the order of the source's early returns.
--
-- Fec models `packetize_frame` of fec.rs and `recover_missing_payload` of h264_reassembly.rs: the loops
-- over the chunks are structural recursions. Repair models the sender's side of a repair in repair.rs:
-- `RepairSuppression` (Repair/Suppression), `RepairCache` (Repair/Cache), the eviction loop that both
-- contain (Repair/Expiry), and `PacketUniquenessTracker` (Repair/Uniqueness).
--
-- Reassembly models `H264Reassembler` of h264_reassembly.rs: the state in Reassembly, the budget of the
-- in-flight frames in Reassembly/Frames, `accept_packet` in Reassembly/Arrival, what a packet changes in
-- its frame and in the counters in Reassembly/Intake, `try_complete_frame` in Reassembly/Completion and `take_ready`, `expire`, `finish` and `accept_datagram` in Reassembly/Release. It
-- decodes datagrams by Wire/Media and parity payloads by Wire/Fec, and recovers a payload by Fec. Each
-- operation takes the state and returns the next one. The loop of `take_ready` runs on fuel, one turn for
-- each frame id from the gate to the highest id that was seen, and one more.
--
-- Reassembly/Nacks models `collect_nack_items`, with the requests of one frame in
-- Reassembly/Requests: the hash map of the frames in flight is gone through in the
-- order of the list that stands for it.
--
-- Gop models what follows a lost frame: the scan of NAL units and the cached parameter sets of
-- h264_annex_b.rs (Gop/AnnexB), whose loop over the bytes is a structural recursion, and
-- `DamagedGopTracker` of h264_reassembly.rs (Gop/Tracker).
--
-- Playout models playout_buffer.rs, Audio the timeline of audio_timeline.rs and the two anchors of
-- media_clock.rs, whose readings of the system's clocks are arguments. Callbacks models the gate of
-- callback_lifecycle.rs; Callbacks/Shutdown is the step relation of the callbacks and the shutdown, in
-- which each operation under the mutex is one step, and fewer leases are held than a `usize` counts.
--
-- Scheduling models the sender's bounded queue and cadence of sender_scheduling.rs. Each operation of the
-- queue holds its mutex, so it is one step; a poisoned mutex is left out.
--
-- Control models the datagrams of media_control.rs: `ProfileChange` and `ProfileAck` (Control/Profile),
-- `StreamClose` and `StreamCloseAck` (Control/Close), `CapabilityFeedback` of both versions and
-- `CapabilityFeedbackTracker` (Control/Feedback). A floating point number of a datagram is held by its
-- bits, and its range is a range of bits.
--
-- Transition models profile_transition.rs: `ReceiverReadinessTransition` (Transition/Readiness),
-- `SenderProfileTransition` (Transition/Sender) and `ReceiverProfileController` (Transition/Receiver).
-- Transition/Protocol puts the sender, the receiver and the network together as one step relation, on
-- which the safety of the change of session is stated. Shutdown models the reasons to stop and the
-- lifecycle of shutdown.rs: the accesses of threads to the shared atomic cells are turns of an
-- interleaving, and a loop that retries an exchange goes round once a turn, with whatever value it
-- loaded before. A look at the token is a turn too, with whether Ctrl-C was requested by then.
--
-- Bytes are numbers below 256 and integers are natural numbers; a counter that the source adds to by `+=`
-- wraps at its width. An `Instant` and a `Duration` are numbers, of
-- nanoseconds in the reassembler, the playout and the scheduling and of microseconds in Control and Transition, and
-- adding to an `Instant` does not overflow. The repair cache holds fewer bytes than a `usize` counts. A socket address is a number of which only equality is used. Hash maps and trees are
-- association lists (Map). The floating point average of the frame interval, which only decides how long
-- the gate waits, is a parameter (`FloatTiming`), and the two statistics of the gate that are floating
-- point numbers are left out.
--
-- Not modelled: the access units and the SPS dimensions of h264_annex_b.rs, the tests of media_control.rs
-- that look at the magic alone, `classify_error`, the close retries and the joining of threads of shutdown.rs, the quality
-- control and the audio transport of the other files of the directory, and what calls Windows, sockets
-- and threads.
pub mod Prelude
pub mod Bytes
pub mod Bits
pub mod Map
pub mod Wire
pub mod Fec
pub mod Repair
pub mod Reassembly
pub mod Scheduling
pub mod Gop
pub mod Playout
pub mod Audio
pub mod Callbacks
pub mod Control
pub mod Transition
pub mod Shutdown
pub mod Tests
