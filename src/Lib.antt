-- ===== src/Lib.antt =====
-- The host-side data path of dmaplane, a kernel driver that orchestrates buffers for DMA and RDMA.
--
-- Parts, and how they interact. A file of the device may create one channel: user space puts entries
-- into its submission ring with SUBMIT, a worker thread processes them into its completion ring, and
-- COMPLETE takes them out. Buffers stand in a table of 64 slots; they are created, destroyed, looked
-- up by handle and mapped into user memory. The streaming benchmark sends from a buffer under
-- credit-based flow control, and records the latency of each send in a histogram. A buffer of pages can
-- be registered as a memory region of the RDMA context, and exported as a dma-buf. The programs under
-- examples/kvcache transfer a cache in chunks whose numbers travel as immediates.
--
-- Base.antt and its children hold what is shared: Boolean tests, lists indexed by native numbers,
-- machine words with their wrap-around written out, signed counters, error codes, scans of tables.
-- Kernel.antt has the kernel's services: what they answer is an argument of each operation, and what
-- the driver obtains from them and gives back is recorded as events.
--
-- Ring.antt: `struct dmaplane_ring` of driver/dmaplane.h, and the store and load of driver/main.c. A
-- ring has its array and two 32-bit counters. Ring/Queue.antt is the bounded queue that it implements.
-- Channel.antt: `struct dmaplane_channel`, and the moves of `dmaplane_worker_fn`, one for each of its
-- critical sections and atomic operations. Channel/System.antt interleaves them with the critical
-- sections of SUBMIT and COMPLETE and with `kthread_stop`, in any order. Channel/Handlers.antt has the
-- handlers as one caller sees them.
-- Device.antt: the four channel slots, CREATE_CHANNEL, open and release of driver/main.c, with the
-- reference counts. Device/Ownership.antt has the sequences of calls on any number of files; the test of
-- CREATE_CHANNEL, which is made before `dev_mutex` is taken, is a step of its own, and calls on one file do
-- not overlap. Two CREATE_CHANNELs of one file that do can leak a channel.
-- Buffer.antt: the table of driver/dmabuf_rdma.c. Buffer/Create.antt is `dmabuf_rdma_create_buffer`,
-- Buffer/Destroy.antt is `dmabuf_rdma_destroy_buffer` with the ioctl handlers, Buffer/Mmap.antt is
-- GET_MMAP_INFO, `dmaplane_mmap` and the callbacks of a mapping. Each call is one step, as each runs
-- under `buf_lock`. A slot of the table stands for the pointer to it.
-- Histogram.antt: driver/dmaplane_histogram.c.
-- Flow.antt: the credit operations of driver/flow_control.c. Flow/Stream.antt and Flow/Sustained.antt
-- are the loop of `dmaplane_sustained_stream`, its drain and its results.
-- Rdma.antt: `struct dmaplane_rdma_ctx` of driver/rdma_engine.c. Rdma/Gids.antt is `scan_gid_table`,
-- Rdma/Setup.antt is `rdma_engine_setup` with its labels, Rdma/Peer.antt has the teardown, the peer pair
-- and SETUP_RDMA. The objects of the adapter are numbers, which the verbs' answers give. Rdma/Unwind.antt
-- and Rdma/Calls.antt are about one call, Rdma/Life.antt, Rdma/Ledger.antt and Rdma/Stays.antt about
-- sequences.
-- Region.antt: the table of memory regions. Region/Register.antt is `rdma_engine_register_mr` with its
-- helpers, Region/Deregister.antt is `rdma_engine_deregister_mr` with the ioctl handlers; the proofs are
-- in Region/Balance.antt, Region/Keys.antt, Region/Sweep.antt and Region/World.antt.
-- Export.antt: driver/dmabuf_export.c; a dma-buf is the context that its callbacks get. The release
-- callback that runs on a freed context, after `dma_buf_fd` has failed, is not modelled. The proofs are in
-- its children.
-- Module.antt: `dmaplane_init` and `dmaplane_exit` of driver/main.c, without CONFIG_DMAPLANE_GPU. The
-- initial states of the parts are with the parts.
-- Sweep.antt: the loop of `dmaplane_qdepth_sweep` at one depth, driver/flow_control.c, and its search for
-- the depth of saturation. What a turn's calls answer is an argument.
-- Kvcache.antt: include/kvcache_proto.h, examples/kvcache/kvcache_common.h and the receive loop of
-- examples/kvcache/kvcache_receiver.c. A 64-bit word of the bitmap is the function that gives its bits.
-- Tests.antt and its children run the theorems with hypotheses at concrete inputs.
--
-- Bounds. Counters wrap at 2 ^ 32 and 2 ^ 64 as in the source. Handles are unique as long as the handle
-- counter has not wrapped, and the theorems that need that say so. The kernel's `ilog2` is computed by
-- at most 63 halvings, which suffices for a 64-bit word. Loops that wait for the clock or for the
-- hardware are lists of what each turn meets, of any length.
--
-- Calls on the RDMA context and on memory regions are steps that run to their end, as the writers among
-- them run under the write lock of `rdma_sem`; the answers of the verbs are arbitrary at every call.
--
-- Not modelled: the posting of sends and receives and the writes with immediate (the rest of
-- driver/rdma_engine.c), GPU memory (driver/gpu_p2p.c), the fixed-iteration
-- benchmarks, NUMA topology, tracing and debugfs, the ioctl dispatcher, and the other programs under
-- examples/ and tests/. Memory ordering is not modelled: accesses under a lock are one step, and atomic
-- operations are steps of their own.
pub mod Base
pub mod Kernel
pub mod Ring
pub mod Channel
pub mod Buffer
pub mod Histogram
pub mod Flow
pub mod Device
pub mod Rdma
pub mod Region
pub mod Export
pub mod Module
pub mod Kvcache
pub mod Sweep
pub mod Tests
