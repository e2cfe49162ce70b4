-- ===== src/Lib.antt =====
-- RIAPS realtime audio microkernel: models and proofs.
--
-- The workspace has four crates. riaps-core holds the lock-free primitives, riaps-sys the platform
-- services, riaps-host the adapter between the sound device and the signal graph, and riaps-dsp
-- the signal graph, its nodes and the event bus. The ring of riaps-core carries the events of the
-- bus, the records of the probe and the parameters of the nodes; the theorems on those stand on
-- those on the ring.
--
-- Which file models what:
--   Core/Spsc.antt: crates/riaps-core/src/spsc.rs. SpscRing with new, len, is_empty,
--     capacity_left, push, pop, pop_slice_copy and drop (drop_ring), one call at a time. A slot
--     that holds no value is `none`, and reading it is undefined behaviour, `none` in the result.
--     Core/Queue.antt is the bounded queue that the ring stands for. Spsc/Drain.antt is the loop
--     of a consumer that pops until the ring is empty. Spsc/Atomic.antt and its children are push
--     and pop of two threads at the same time, a load, a slot access or a store at a time.
--   Core/Emergency.antt, Core/Gc.antt: crates/riaps-core/src/memory.rs. EmergencySlot with push
--     and drain as atomic steps of one writer and one reader; DropVTable and GcContext over the
--     blocks that the allocator has given out.
--   Core/Rcu.antt: crates/riaps-core/src/rcu.rs. RcuHandle with empty, new, load and swap, a swap
--     in two atomic steps.
--   Host/Fifo.antt, Host/Adapter.antt: crates/riaps-host/src/adapter_buf.rs. SampleFifo and
--     AdapterBuffer with new, process_host_block, flush and all their helpers; a panic is `none`.
--     The callback into the graph is a parameter with a state of its own. Host/Blocks.antt is the
--     same over plain lists, Host/Timing.antt and its children are about the reserve of silence,
--     and Host/Session.antt and its children are about whole sessions.
--   Host/Device.antt: crates/riaps-host/src/lib.rs, alsa.rs and coreaudio.rs. HostConfig,
--     HostError, the trait HostAdapter as a record of operations, and the adapters that implement
--     it.
--   Dsp/EventBus.antt: crates/riaps-dsp/src/event_bus.rs. KernelEvent, is_fatal, EventBus with
--     new, emit, drain and its queries.
--   Dsp/Node.antt: crates/riaps-dsp/src/node.rs. ParameterQueue and GainNode; a float is a value
--     of a type with the operations that the code calls.
--   Dsp/Graph.antt: crates/riaps-dsp/src/graph.rs. DynamicGraphBuilder with new, add_node,
--     connect, disconnect and compile. Graph/Edges.antt is about the tables, Graph/Kahn.antt,
--     Relax.antt, Rounds.antt and Start.antt about the loop, Graph/Latency.antt about the path
--     latencies, Graph/Compile.antt about the results, Graph/Builder.antt about the builder in
--     use. Graph/Schedule.antt is about a computation in topological order. Graph/Process.antt is
--     DspGraphInner::process and reset over the flat buffers, where an operation of a node is a
--     parameter; Process/Slices.antt and Blocks.antt are about the buffers, Nodes.antt about the
--     loop, Calls.antt and Compiled.antt about calls.
--   Dsp/Publication.antt: crates/riaps-dsp/src/graph.rs. DspGraphHandle::new, try_pin, swap, the
--     drop of the read guard, try_reclaim, try_into_box and the drop of a token, which leaks its
--     graph, as a step relation of any number of threads; one atomic operation is one step, and
--     steps are sequentially consistent; the drop of PublicationState is a function.
--   Sys/Probe.antt: crates/riaps-sys/src/probe.rs. PerformanceProbe with measure, drain,
--     drain_batch and set_enabled; the clock is a parameter.
--   Sys/Thread.antt: crates/riaps-sys/src/thread.rs. ThreadProvisioner with provision on each
--     platform, and the drop on Linux; the system calls are parameters.
--   Sys/Fpu.antt: crates/riaps-sys/src/fpu.rs. FpuGuard with new and drop on each target; the
--     control register is a number.
--   Prelude.antt and its children: lists, words, and the option monad for panics.
--
-- Words: usize and u64 are 64-bit, u32 is 32-bit; wrap-around, saturation and checked subtraction
-- are written out. Debug assertions are on.
--
-- Fuel: every loop that is not structural runs on fuel, and a theorem shows that its fuel is
-- enough. A pop loop gets one more round than the ring or FIFO holds items; the block loop of the
-- adapter one more than there are samples, since each round takes one at least; Kahn's loop one
-- more than there are nodes, since each round orders a new one; the loop of drop in the ring one
-- more than its length. greatest_common_divisor recurs on the accessibility of its second
-- argument.
--
-- Not modelled: allocation limits (an allocation succeeds, whatever its size: the panic of a Vec
-- above isize::MAX bytes, that is from 2^61 samples of f32 on, in compile and SampleFifo::new, is
-- left out); the sticky status flags that floating-point operations set in MXCSR (a computation
-- leaves the control register alone); the memory orderings of the atomics (atomic steps are taken
-- one at a time, sequentially consistent; the bus, the parameter queue, the probe and
-- pop_slice_copy are modelled one call at a time), the inline assembly and the fences of
-- crates/riaps-sys/src/fpu.rs, and the benchmarks.
pub mod Prelude
pub mod Core
pub mod Dsp
pub mod Host
pub mod Sys
