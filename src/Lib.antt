-- ===== src/Lib.antt =====
-- CameraMan composes several cameras into one picture and publishes it as a virtual camera. This
-- library models the part of it that every frame passes through, and the state that it keeps.
--
-- The parts and the files that model them:
--
--   Base, Error   Shared names, tests, lists, results, machine words; src/error.rs, whose error values
--                 the modelled functions return.
--   Media         What a frame means. Formats: pixel formats and the camera's fixed configuration
--                 (src/wire.rs, src/config.rs). Colorimetry, Contract, Coordinates: the colour
--                 interpretation and its wire code, the frame contract and its validation, and the map
--                 from display points back to source pixels (src/media_contract.rs). Transform: a
--                 source's crop, rotation and mirroring, composed with its contract
--                 (src/source_transform.rs). Negotiation: which streams are granted, and the
--                 coordinator that changes the format together with its epoch
--                 (src/format_negotiation.rs).
--   Frame         src/frame.rs. Limits: the memory policy and the checked length. Buffer: `Frame`, its
--                 constructors and pixel access. View: `FrameView` with padded rows, and the copy of
--                 its pixels into a frame.
--   Shm           src/shared_memory_transport/: three slots in shared memory, one writer process, any
--                 number of readers. Slot: the state word of a slot and its operations
--                 (slot_state_machine.rs). Ownership: the same operations cut into their atomic
--                 accesses, of everybody at once, as a step relation. Mapping: where the slots lie
--                 (protocol.rs). Validation: what is checked of foreign memory (validation.rs).
--                 Channel: the region's contents, `send` of the writer (writer.rs) and `read_latest`
--                 of the reader (reader.rs).
--   Stream        src/stream_runtime.rs: Pacer, the deadlines of frames; Lifecycle, the state of a
--                 stream and its recovery from a lost worker. Integrity: what a source's history says
--                 of its frames (src/frame_integrity.rs).
--   Spool         src/frame_transport.rs, the transport through a file. Bytes: little-endian numbers.
--                 Codec: the file that `write_frame` makes and `parse_frame` reads. Sink:
--                 `FrameSpoolSink` and `read_latest_frame`.
--   Transport     src/transport.rs: the two transports behind one sink, and `poll_borrowed` of both.
--   Layout        src/layout.rs: the cells that the output is divided into.
--   Render        src/render.rs. Sampling: which pixel of the source is read, and how a channel is
--                 blended. Placement: `transformed_placement`. Paste and Bilinear: the loops that write
--                 pixels. Premultiplied: the pixels that are not opaque. Cache: `SamplingCache`.
--                 Compose: `Compositor`, one frame into its cell, and all cells into the output.
--   Capture       src/capture.rs. Capture and Deadlines: what the worker publishes and the reader says of
--                 it. Backoff, Open, Pixels, Poll: the delays between two attempts, the requests of an
--                 open, the decoder's channels, the wait for one frame. Lease and Worker: the loop
--                 of `run_capture_worker`, of all workers at once.
--   Worker        src/render_worker.rs: the state that the user interface and the render thread share.
--                 Publish: the result of a job and how it joins an unread one. Machine: `run_worker`
--                 cut into the parts that nobody interrupts, and the events of both threads in order.
--   Pipeline      src/pipeline.rs. Reading: the loop over the sources. Run: `render_once`, `render_n`.
--                 Room: durations that fit.
--   Extension     src/extension/frame_pump.rs: what the camera extension shows of the frames it polls.
--   Clock         src/media_clock.rs: the ticks of the user interface and the thread that counts them.
--   Limits        src/parser_limits.rs: the size and the envelope of an input.
--   Tests         The theorems at work on concrete inputs.
--
-- How they interact: a frame is made under the limits of Frame.Limits with a contract of
-- Media.Contract; the writer of Shm.Channel takes canonical frames only and writes their metadata and
-- bytes into a slot that Shm.Slot let it claim; the reader leases the slot, validates it by
-- Shm.Validation, views it by Frame.View and copies it out. Before that, a worker of Capture
-- publishes the frames of a camera, and the pipeline or the render worker composes them: Render.Compose
-- draws each source in a cell of Layout, where Render.Placement puts it, by a loop of Render.Paste,
-- Render.Bilinear or Render.Premultiplied. Spool is the other way out, and Transport polls either;
-- Extension shows what it polls, with the history of Stream.Integrity.
--
-- How the code is written here. A method that changes its object takes the state and returns the new
-- one beside its result; an error is a value of `Result`. Machine words are native numbers with the
-- wrapping, saturating or checked arithmetic of the source written out; `usize` has 64 bits. Bytes are
-- numbers, and a buffer is a list of its own, whatever shares it in the source. The functions of
-- Shm.Channel are calls that nobody disturbs; the interleavings of one slot are in Shm.Ownership, which
-- a theorem ties to them. There memory is sequentially consistent, and no process takes over the id of
-- a dead one. Clocks, process ids, the liveness of a process, the page size, the size of the header
-- record, the environment, and what files, sources, sinks and the compositor answer are arguments.
-- Where the source rounds in floating point, the rounded number is an argument and the integer steps
-- around it are written out; where a whole path is floating point, its operations are the fields of
-- `Render.Premultiplied.Floats`, of which nothing is assumed. A slice out of range, which panics, is `none`, as is in
-- Pipeline a sum of durations, or a `+=` on a `u64`, that does not fit: overflow is checked there.
--
-- Bounds and fuel: the loops over cells, pixels, sources and bytes run over lists. The others are the
-- writer's three rounds over the slots, the reader's three rounds, and the reset of a slot, which runs on the list of what it finds in each round; the first two
-- are the source's own bounds, and a theorem says that one undisturbed round ends the third. The wait
-- for a first frame has a poll for each unit of fuel, and a theorem says how many are enough.
--
-- Not modelled: the mapping of files and memory, file locks and process tokens
-- (src/shared_memory_transport/mapped_backend.rs), which are system calls; statistics, tracing and the
-- copy ledger, which nothing reads back; the wording of errors; the camera library and the discovery of
-- devices; the preview buffers of src/render_worker.rs; the camera extension's bindings, and the user
-- interface.
pub mod Base
pub mod Error
pub mod Capture
pub mod Media
pub mod Frame
pub mod Shm
pub mod Spool
pub mod Stream
pub mod Transport
pub mod Layout
pub mod Render
pub mod Worker
pub mod Pipeline
pub mod Extension
pub mod Clock
pub mod Limits
mod Tests
