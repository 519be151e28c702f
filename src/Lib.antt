-- ===== src/Lib.antt =====
-- Akvarium: processes on one machine exchange messages over a ring of named pipes. The files here
-- model the engine (src/engine) and the node (src/akva).
--
-- The parts, and how they work together:
--   Protocol (src/engine/protocol.hpp, src/engine/protocol.cpp): AkvaWriter::Write is `write`,
--     AkvaReader::Head, Next and Complited are `head`, `next` and `complited`; `receive` is the loop of
--     Tube::HandleRead (src/akva/akva.cpp) over one frame. Memory is a list of 32-bit words.
--   Regedit (src/engine/regedit.cpp): the registry of nodes. AddNode, DelNode, AddEdge and DelEdge are
--     `add_node`, `del_node`, `add_edge` and `del_edge`; RegTable::Merge, W2 and ReCalcLog are `merge`,
--     `read_table` and `re_calc_log`. The shared file is a list of records. GenMagic is `gen_magic`
--     of Regedit/Magic; each turn of its loops takes a random number and the file at that time.
--   Topology (src/akva/manager.cpp, src/akva/driver.cpp): Manager::Loop surveys the registry
--     (`survey`) and finds the neighbours in the ring (`back_slot`, `ahead_slot`); Driver::Overwatch
--     chooses the leader (`overwatch`).
--   Links (src/akva/akva.cpp): Pipe sends the frames of its writer to the node behind it (`play`,
--     `async_write`, `handle_write`); Tube reads from the node ahead (`run`, `async_read`,
--     `handle_read`) and keeps the edge in the registry (`edge`). The system's answers are arguments.
--   Scheduler (src/akva/driver.cpp): Driver::Exec puts a task in the queue (`exec`), Driver::Run gives
--     the tasks to the workers (`run_sweep`) and goes through the workers (`turn`), Worker::On takes a
--     worker on (`on`); `create` and `attach` make the workers. Scheduler/Plays has the drivers that
--     these lead to in any order (`Reach`), with a record of which worker is through with which task.
--   Commands (src/akva/context.cpp): what cmd::Service, cmd::Overwatch and cmd::Test do when the
--     pipelines play them one after the other (`play_service`, `play_overwatch`, `play_test`), in the
--     order in which the workers are through with their task.
--   Clock (src/akva/driver.cpp, src/akva/manager.cpp): Driver::HistoryTiker, which makes the time marks
--     (`history_tiker`), and the end of Manager::Loop, which gives Service and Overwatch to the queue
--     (`post`). What the system's clock says is an argument.
--   RingBuffer (src/engine/ring_buffer.hpp): RingBufferV0, a ring of bytes with counts that wrap around;
--     Write, Read, Count and operator[] are `write`, `read`, `count` and `at`.
--   Lock (src/engine/spin_lock.cpp): MicroSpinLock, as steps of threads with one atomic access each.
--   Pipeline (src/akva/akva.cpp, src/akva/context.cpp, src/engine/graph.cpp): the filters of a pipeline,
--     the commands that wait for a graph (`wait_annonce`, `complite`), Transfer::Play (`transfer`), and
--     the graphs (`make`, `append`, `visit`, `graph_ok`). A graph's hash_value() is an argument.
--   Block (src/engine/block.hpp): block::General, the memory that frames and buffers are filled in
--     (`copy`, `mem_move`).
--   Stack (src/engine/frame.cpp, src/engine/view.cpp): FrameStack (`head`, `next`, `complited`) finds
--     the messages in shared memory, Burst::Copy fills the parts of a message (`copy_parts`), and
--     MessageView joins them (`join`).
--   Layout (src/engine/frame.cpp, src/akva/driver.cpp): Frame::Make lays a message out over frames
--     (`make`, with `make_at` for the normal and `make_large` for the large branch, `scan` for the
--     loop over Head and Next), and the loop of Driver::Unpack finds it again in them (`unpack`).
--   Memory (src/engine/memory.hpp): mem::CoreSpace, the skip list of nodes by key: Search, Insert,
--     Delete, Contains, Interval and Move are `search`, `insert`, `delete`, `contains`, `interval` and
--     `move`. A pointer is a number, 0 the null pointer, and a field of the nodes a function of it.
--   Space (src/engine/memory.cpp, src/engine/allocator.hpp): mem::EasySpace, which keeps its blocks in
--     such a skip list and in a ring of boost::intrusive: the constructor, Write, Read and Free are
--     `create`, `write`, `read` and `free`; UniMessage::Pack and UnPack are `pack` and `un_pack`, and
--     Allocator::Aquare is `aquare`. The ring's operations are the record `CircularList`, with what
--     boost documents of them as laws.
--   Registr (src/engine/regular_registr.cpp): mem::RegularRegistr, the blocks in memory that several
--     processes see: Write, Read, Free, Ok and Update are `write`, `read`, `free`, `ok` and `update`. It
--     has the same skip list and ring; the segments are a function of their number and of a position.
--
-- Numbers are natural numbers; the wrap-around of uint16_t and uint64_t is written out where the code
-- computes (u16, u64). The loop of Write runs on fuel: a round sends a word at least, so the bytes of
-- the message are enough; the loop of HandleRead takes a word of the frame in each round. Frame::Make
-- takes more fuel than the message has bytes, the loop of Unpack more than the frame has words,
-- Search more than the list has nodes, and the constructor of EasySpace more than it has blocks,
-- which ends for less than 2 ^ 16 of them. The loop of EasySpace::Read has 64 rounds, one for each
-- shift. A read of FrameStack outside of its frame, and fuel that is spent, give `none`.
--
-- Parameters: the addresses that HeapAlloc gives for nodes and frames, the heights that RandomLevel
-- draws, the numbers of the random generator, the hash of a graph, the clock, and the answers of the
-- system.
--
-- Not modelled: the mapping of the shared segments by boost::interprocess, the destructors and what
-- prints; the notifications (src/engine/notification.cpp) and the bit utilities; the
-- reference counts and counters of frames, and the flags of blocks; output (console, logger,
-- terminal), the statistics of Run, and how long a thread sleeps or spins.
pub mod Prelude
pub mod Block
pub mod Links
pub mod Pipeline
pub mod Protocol
pub mod Regedit
pub mod Scheduler
pub mod Stack
pub mod Topology
pub mod Memory
pub mod Space
pub mod Layout
pub mod Registr
pub mod RingBuffer
pub mod Clock
pub mod Commands
pub mod Lock
