-- ===== src/Lib.antt =====
-- tcpeen: a TCP server library for games. An IO thread runs libuv and talks to the main thread of
-- the game through lock-free queues; src/tcp_service.c holds both ends together.
--
-- The parts, and the file that models each:
--   Queue      src/queue_spsc.c      the ring of pointers between one producer and one consumer, a
--              call at a time, and a push and a pop on two threads (Queue/Threads)
--   ListPtr    src/list_ptr.c        a stack of pointers
--   ListBlock  src/list_block.c      a list over the array list of aws-c-common
--   Buffer     src/buffer.c          a byte buffer with a write end and a read cursor
--   Pool       src/buffer_pool.c     a fixed set of buffers and the queue of the free ones
--   Events     src/event.c           a fixed set of events, with a free and a ready queue
--   Endpoint   src/endpoint.c        addresses
--   Channel    src/tcp_channel.c     a connection (Channel), its framing (Channel/Read) and the
--              table of connections (Channel/Table, Channel/Setup)
--   Map        src/map.c             a map over the hash table of aws-c-common
--   Service    src/tcp_service.c, src/tcp_service_internal.c: the state (Service), the calls of
--              the main thread (Setup, Lifecycle, Send, Updates), the IO thread (Thread) and its
--              callbacks (Callbacks, Connect). Send/Inv says who holds which write request and
--              which buffer for writing, Callbacks/Reads who holds which buffer for reading
--   Echo       src/tcpserv/tcpserv_unity.c: a server that sends back what it reads
--   Plugin     src/unity/tcpeen_unity.c: what the plugin for Unity exports
--   Context    src/tcp_context.c     what the connections of the load generator share
--   Connection src/tcp_connection.c  a connection of the load generator: how it is made and closed,
--              what it sends (Send) and what it reads back (Receive). Decode is a decoder over a
--              list of bytes that the reading is compared with
--   Loadgen    src/tcplg/tcplg.c, include/tcplg/cmdargs.h (CmdArgs): the load generator, a timer that
--              drives connections through its phases
--   Fslog      src/fslog.c           a file that a thread of its own reads or writes
--   Server     src/tcpserv/tcpserv.c: an older echo server, which calls libuv itself, and its
--              thread (Server/Loop)
-- Headers are in include/tn. Fifo is the specification of the queue; Bytes and Memory are the
-- interfaces to aws-c-common and to the allocator; Base holds what all share.
--
-- Conventions. A struct is a record, an enum a data type, and a function takes the state and
-- returns the status, the values of its out parameters and the new state. A pointer into an array
-- is the index of the entry, and NULL is `none`. Numbers of 64 bits wrap around where the code
-- adds or subtracts (add64, sub64). TN_ASSERT is a precondition. An out parameter that the code
-- leaves alone is `none`. Names that antt reserves or that clash are changed: get_capacity,
-- header, payload, open_channel, close_channel, get_state.
--
-- Parameters: the functions of aws-c-common (ByteOps, with the laws IsByteOps, ArrayOps, and
-- TableOps), TN_MEM_ACQUIRE (Memory, with IsMemory, and IsPlenty where it never
-- fails), aws_byte_buf_init for a message (`alloc`, with IsAlloc), the clock (Clock), the address
-- functions of libuv (AddrOps, with IsAddrOps), what argparse and the split of aws-c-common make of
-- the command line (CmdArgs, Texts), and the answers of libuv and of the threads to single calls
-- (Peer, Answers, World, Status arguments).
--
-- Loops are structural recursion on the number of rounds. The setup loops run once per place; that
-- of the event list has a counter of 32 bits and is given one round more than there are places,
-- which is enough since a push on a full queue ends it. The loop of on_prep_cb is given the rounds
-- by its caller: as many as there are ready requests. The loop of on_tcp_recv_cb is given one round
-- more than there are bytes, which is enough since each round but the last takes bytes. In a state
-- that is neither of its two it goes on for ever, and the model returns `none`.
--
-- A call runs alone but in Queue/Threads, where the accesses of a push and of a pop_back to shared
-- memory are steps that interleave in any order, each thread's in the order of its program, as
-- acquire loads and release stores make them be seen; a load of the other's counter may give an older
-- value, but none older than was seen before. tn_queue_spsc_pop_all ends with a relaxed store, which may
-- be seen before its copies are made: it is modelled as a call that runs alone. Not modelled are
-- src/allocator.c, the logs, the wrappers around the system, the main functions and the sniffer; the
-- memory that src/tcp_connection.c takes and gives back for a read or a write is not followed.
pub mod Base
pub mod Fifo
pub mod Queue
pub mod ListPtr
pub mod Map
pub mod ListBlock
pub mod Bytes
pub mod Buffer
pub mod Memory
pub mod Events
pub mod Endpoint
pub mod Pool
pub mod Channel
pub mod Service
pub mod Echo
pub mod Plugin
pub mod Context
pub mod Connection
pub mod Fslog
pub mod Loadgen
pub mod Server
