-- ===== src/Lib.antt =====
-- A model of the CXL fabric of the simulator: nodes reach memory pools over links, directly or
-- through a switch.
--
-- The parts and how they interact. A tick of the node (cscore.cc) moves a clock, which drives its
-- caches and its core (src/operable.cc). The core (src/ooo_cpu.cc) takes instructions from its input
-- queue through its buffers to the reorder buffer, renames their registers
-- (src/register_allocator.cc), and reads and writes through the channels to its caches; a table of
-- the lines used last (inc/msl/lru_table.h) tells it which are decoded. A cache (src/cache.cc) checks
-- tags, keeps an entry (MSHR) for each block that it waits for, and fills it with the answer, in a
-- way that its replacement policy (replacement/lru, replacement/srrip) chooses. The last-level cache
-- gives its misses and its dirty blocks in remote memory to the node as requests
-- (inc/SST_CS_packets.h), which the node sends after its ticks of the caches, and takes the responses
-- that come. convert_ev_packet.cc turns both into events of payload words (csEvent.h). A fabric port
-- (src/fabric_port.cc) queues the event, pays for it in credits and gives it to the link. The port at
-- the other end puts it through a latency and bandwidth queue (src/lat_bw_queue.cc), hands it to its
-- component, at most one in a cycle, and returns the credits in an event of its own. The switch
-- (switch.cc) is a component with many ports: it routes what one port gives out to another, and can
-- copy a write to every pool. A pool (cxl_mempool.cc) puts the requests that its ports give out
-- through a channel (src/channel.cc) and a memory controller (src/my_memory_controller.cc), and sends
-- the responses back. Which virtual pages lie in a pool is read from a file (src/address_map.cc), and
-- the virtual memory (src/vmem.cc) maps them to the pool's addresses.
--
-- The files. Each module models the file that its first line names. A record has the fields of the
-- class, and a function has the name of the method and returns the state after it.
--   Prelude          lists, permutations, signed integers and errors that the parts share
--   Operable         src/operable.cc, inc/operable.h, and the clock of src/chrono.cc
--   Cache            src/cache.cc, inc/cache.h, and what they use of inc/block.h, inc/waitable.h,
--                    inc/cache_stats.h, inc/event_counter.h and prefetcher/no: Mshrs, Answers, Fill,
--                    Lookup, Miss and Translation are its handlers, Operate is a
--                    cycle, Kept is what it keeps, and Phases are the two ends of a phase
--   Lru              replacement/lru/lru.cc, replacement/lru/lru.h
--   Srrip            replacement/srrip/srrip.cc, replacement/srrip/srrip.h, and the calls of a policy in
--                    inc/cache.h and inc/modules.h
--   Core             src/ooo_cpu.cc, inc/ooo_cpu.h, inc/instruction.h, inc/core_stats.h: Fetch, Decode,
--                    Dispatch, Execute, Memory and Returns are its stages, and Cycle is `operate` and
--                    the phases
--   LruTable         inc/msl/lru_table.h
--   Span             inc/util/span.h
--   Node             cscore.cc, cscore.h; LastLevel joins it to the caches
--   Packet           csEvent.h, inc/SST_CS_packets.h; Control is inc/control_event.h, and Convert is
--                    convert_ev_packet.cc
--   Double           the operations on `double`, as a parameter of the model
--   LatBwQueue       src/lat_bw_queue.cc, inc/lat_bw_queue.h
--   FabricPort       src/fabric_port.cc, inc/fabric_port.h; Offers is `try_receive` with a handler that
--                    sends on the same port, and Protocol joins two ports by a link
--   Switch           switch.cc, switch.h; Clock is its `clock_tick`
--   Channel          src/channel.cc, inc/channel.h; Collision is `check_collision`
--   MemoryController src/my_memory_controller.cc, inc/my_memory_controller.h
--   MemoryPool       cxl_mempool.cc, cxl_mempool.h; Service is its `clock_tick`
--   AddressMap       src/address_map.cc, inc/address_map.h
--   VirtualMemory    src/vmem.cc, inc/vmem.h
--   RegisterAllocator
--                    src/register_allocator.cc, inc/register_allocator.h, of the core
--   FwCounter        inc/msl/fwcounter.h, the counters of the replacement policies
--
-- What is taken as given. SST is not modelled: `link_->send` appends to the list `sent` of the port,
-- and events reach the other end in order. The arithmetic of `double` is a record of operations; a
-- theorem that needs a law of it takes that law as a hypothesis. `std::shuffle` is a parameter. An
-- unsigned word is a number with its wrap-around written out; clocks and sums of credits do not
-- overflow `int64_t`, and the times and counts of a cache no word. Addresses are numbers, and a slice
-- of one is a quotient. A pointer to the queue of responses of an upper level is the number of its
-- channel. The level below a cache is the channel to it. The core's branch predictor and branch
-- target buffer are a record of operations, and the room in a buffer of it, a difference of `size_t`,
-- is taken to be no negative number. Every loop is over a list or a count, but that of `operate_on`,
-- which is on fuel: the picoseconds to the clock's time are enough.
--
-- Not modelled: how an instruction is made from a trace, the joining of the core to the node, which
-- sees its buffers as a view, the page table and its walker, the predictors, the other prefetchers
-- and replacement policies of ChampSim, the DRAM controller, and all reading, printing and wiring.
pub mod Prelude
pub mod Packet
pub mod Double
pub mod LatBwQueue
pub mod FabricPort
pub mod Switch
pub mod AddressMap
pub mod VirtualMemory
pub mod FwCounter
pub mod Channel
pub mod MemoryController
pub mod MemoryPool
pub mod RegisterAllocator
pub mod Node
pub mod Cache
pub mod Lru
pub mod Operable
pub mod Srrip
pub mod LruTable
pub mod Core
pub mod Span
