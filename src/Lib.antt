-- ===== src/Lib.antt =====
-- Verification of parts of FERS, the Flexible Extensible Radar Simulator: the event loop that runs
-- a simulation and the streams that it feeds, its VITA 49.2 output, that is how the samples of a
-- simulated receiver become datagrams and how the datagrams are sent, the schedules in which its
-- radars are active, the projection of its memory, its thread pool and the numbers of its objects.
--
-- A world schedules the first events of its radars (`World::scheduleInitialEvents` of
-- packages/libfers/src/core/world.cpp). The engine (`SimulationEngine` of
-- packages/libfers/src/core/sim_threading.cpp) takes events out of a priority queue in the order of
-- their times; an event can schedule the next one. Between events it samples the streaming
-- receivers, gathers the samples in blocks, and opens, feeds and closes each receiver's stream at
-- the output sink. `projectSimulationMemory` of packages/libfers/src/core/memory_projection.cpp says
-- beforehand what memory a run needs.
--
-- A receiver's stream is registered under a number (`StreamRegistry`). Its sample blocks are cut
-- into packets that fit a datagram (`Vita49Packetizer`), which are written byte by byte
-- (`Vita49Serializer`) under timestamps and packet counts (`vita49_types`). Context packets, built
-- from the stream's descriptor (`Vita49ContextBuilder`), carry its parameters and flags. A thread
-- sends the datagrams when they are due (`PacedSender`), and `Vita49OutputSink` keeps each stream's
-- statistics and pending flags. All of it is in packages/libfers/src/serial/vita49, and the records
-- it shares with the simulation in packages/libfers/src/core/receiver_output.h. Apart from it, a
-- scenario's raw schedule of a radar is filtered, sorted and merged (`processRawSchedule` of
-- packages/libfers/src/radar/schedule_period.cpp).
--
-- Files, with the code they model, below packages/libfers/src where no other path is given:
--   Base and its children: shared names, lists, exceptions, bits, integers, byte strings.
--   Floats: floating-point arithmetic, a parameter of the models.
--   Vita49/Types, Types/*: vita49_types.h and .cpp but for the timestamps.
--   Vita49/Timestamp, Timestamp/Laws: `timestampFromEpoch`.
--   Vita49/Writer, Writer/Laws: `ByteWriter` and `checkedWordCount`, with readers of what is written.
--   Vita49/Descriptor: the records of core/receiver_output.h, and `ContextPacket`.
--   Vita49/Metadata: the JSON value that describes a stream.
--   Vita49/Serializer, Serializer/*: the three serializers of vita49_serializer.cpp, with readers
--     that know only the byte layout.
--   Vita49/ContextBuilder, ContextBuilder/Flags: `Vita49ContextBuilder::build`.
--   Vita49/Packetizer, Packetizer/*: `Vita49Packetizer`, one round of its loop, then the loop.
--   Vita49/Registry, Registry/*: `StreamRegistry`, its search for a number, its invariant.
--   Vita49/Sender, Sender/*: `PacedSender`. Sender holds its critical sections, Sender/System the
--     threads that run them as events in any order, the other children the invariants of every
--     history.
--   Vita49/Sink, Sink/*: the stream states of `Vita49OutputSink`.
--   Schedule, Schedule/Coverage: `processRawSchedule`.
--   Simulation/Sources: `makeActiveSource` of core/simulation_state.cpp.
--   Simulation/Radar, Radar/Next: the times of pulses and windows of radar/transmitter.cpp and
--     radar/receiver.cpp.
--   Simulation/Radar/Resampling, Resampling/Calls, Resampling/Placement: the methods of
--     radar/receiver.cpp that feed its resampler of intermediate frequencies and place what comes out.
--     The resampler is a parameter, and its output callback a list of the blocks that it was given.
--   Simulation/Events: core/sim_events.h, and the interface of the priority queue.
--   Simulation/World, World/Initial, World/Expected, World/Added: the initial events, and a description
--     of them without a queue.
--   Simulation/Engine, Engine/*: the event loop over an interface of what its handlers do with streams
--     and samples. Followup, Passes and Preserved describe what one event does to the queue, one pass
--     of the loop, and what the rest of the engine keeps; Clock is what is asked of times, Order and
--     Progress are about whole loops.
--   Simulation/Streams, Streams/*: the other side of that interface. Blocks, Sampling and Handlers are
--     the code; Session is the order of a stream's calls at the sink, Emission, Untouched, Sampled and
--     Lifecycle how the code keeps it.
--   Memory, Memory/Exact, Memory/Flags: core/memory_projection.cpp, against exact numbers.
--   ThreadPool, ThreadPool/Waiting: core/thread_pool.h and .cpp, its threads as events in any order.
--   SimId, SimId/Unique: core/sim_id.h.
--   Interpolation, Interpolation/Lookup: the tables of interpolation/interpolation_set.h and .cpp, for
--     values of type double.
--   Examples/*: inputs, runs, and the theorems at those inputs.
--
-- Conventions: an unsigned integer is a natural number with its wrap-around written out; a signed
-- one is an integer of Base/Int; an exception is its standard class (Base/Exceptions); an unordered
-- map is an association list. A call that changes an object returns the object after the call, also
-- where it throws and the caller goes on with the object.
--
-- Fuel: the loop of `packetize` runs on the number of samples, since a round takes one sample or
-- more; the carry loops of `timestampFromEpoch` on two rounds each, by a theorem of Timestamp/Laws;
-- the event loop on a number that is shown to suffice from the ticks that are left up to the stop
-- time; the search of the registry on the bound 2^31 - 1 that the source has; `std::to_string` on
-- the 20 digits of a 64-bit number.
--
-- Parameters: floating-point arithmetic (`Floats`), the priority queue of the standard library, the
-- sample that the physics gives a receiver, noise, interference, the downsampling filter and the resampler,
-- whether a source is still heard, the answers of the cancellation callback, the JSON printer, the
-- library's sort, and the datagram sender, whose outcomes are events. The steady clock's readings
-- are arguments of the events.
--
-- Not modelled: the sockets (udp_sender.cpp), the telemetry callback and the calls of
-- `Vita49OutputSink` that wait on the paced sender, the length of the waits of `waitUntilDue`, the
-- copies of the sender's late counters, the warnings about schedules, in the engine the resampling
-- of intermediate frequencies (its receivers are without it), the tracker caches, the
-- progress reports and the finalizer threads, and the rest of the simulator: scenario files, the
-- floating-point physics and signal processing, the HDF5 output, the command line and the user
-- interface.
pub mod Base
pub mod Floats
pub mod Vita49
pub mod Schedule
pub mod Simulation
pub mod Memory
pub mod ThreadPool
pub mod SimId
pub mod Interpolation
pub mod Examples
