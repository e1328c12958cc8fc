-- ===== src/Lib.antt =====
-- ITC platform: the message passing between mailboxes of one process, and between processes.
--
-- The parts of the program and the files that model them:
-- - sw/itc-common/inc/itcLockFreeQueue.h, the bounded queue of atomic cells. Queue.antt has its
--   compile-time helpers (`GetCacheLineIndexBits`, `GetIndexShuffleBits`, `remapIndex`,
--   `roundUpToPowerOf2`) and `tryPush`, `tryPop`, `push`, `pop`, `size`, `empty`, `full` as one caller
--   runs them. Queue/Fifo.antt is the bounded FIFO that they are compared with, Queue/Threads.antt the
--   accesses of many threads as a step relation, with its laws below it: where the elements are, and who
--   waits for whom. Queue/Single.antt has the accesses of one producer and one consumer in the
--   single-producer mode.
-- - sw/itc-common/inc/itcAdminMessage.h, a message in memory: Message.antt, with the heap as a map from
--   addresses to messages, and Message/Bytes.antt for the bytes that are copied between processes.
-- - sw/itc-common/inc/itcMailbox.h and src/itcMailbox.cc: Mailbox.antt, with the inbox that it is
--   compared with in Mailbox/Inbox.antt, and its use by many threads in Mailbox/Threads.antt, whose steps
--   are those of the queue.
-- - sw/itc-common/inc/itcConcurrentContainer.h, the array of mailboxes with the queue of free entries
--   and the map from names: Container.antt, and Container/Threads.antt for the free entries under many
--   threads.
-- - sw/itc-common/src/itcTransportLocal.cc: Transport/Local.antt, a message to a mailbox of the region.
-- - sw/itc-common/src/itcTransportSysvMsgQueue.cc: Transport/Sysv.antt sends to another region,
--   Transport/Sysv/Receiver.antt is the receiving thread with its set-up, and
--   Transport/Sysv/Forward.antt takes its bytes apart and hands on to the local transport.
-- - sw/itc-common/src/itcTransportLSocket.cc, the search for the server: Transport/Socket.antt.
-- - sw/itc-common/src/itcThreadManager.cc and if/itcThreadManagerIf.h: ThreadManager.antt.
-- - sw/itc-common/src/itcSyncObject.cc, and the time difference of src/itcMutex.cc: SyncObject.antt, with
--   the macros of inc/itcMutex.h in SyncObject/Locking.antt.
-- - sw/itc-common/src/itcFileSystem.cc over the calls of std::filesystem: FileSystem.antt.
-- - sw/itc-api/src/itcPlatform.cc, the interface that a thread calls: Platform.antt sends and receives,
--   Platform/Mailboxes.antt has the own mailbox, Platform/Locating.antt the search by name,
--   Platform/Session.antt the set-up and release, and Platform/Requests.antt the messages to the
--   server of inc/itcSystemProto.h. It calls the transports, the thread manager and the messages above.
-- - sw/itc-common/inc/itcThreadPool.h, workers that share a queue of tasks: ThreadPool.antt, as a step
--   relation.
-- - sw/itc-common/inc/itcMemoryManager.h: Memory.antt has `MemoryAllocator`, with what the process
--   holds of the system as its state, Memory/Shared.antt the classes of shared memory, and
--   Memory/Pool.antt `MemoryPool`, whose free slots stand in three of the queues above.
-- Each has child modules with its invariants and laws. Common.antt holds what they share.
--
-- A pointer is a number and 0 is nullptr; in a container the entry `i` is `i + 1`. A uint32_t is a
-- native number, with its wrap-around written out. A wait that no other thread ends is `none` in the
-- queue and the mailbox, `waits` in the transports; an access outside live memory is `fault` there.
-- The calls of the C library are a record of functions, one for each attempt of a loop.
--
-- Bounds: `drain` of a mailbox has fuel for 1025 rounds and a queue holds 1024 messages; the loop of
-- the destructor of a container has one round more than the array has entries. The loop of
-- `send` around `msgsnd` has no bound in the code; its fuel is the number of attempts looked at,
-- and so is that of the loop around `recv`.
-- Sequential consistency is assumed where threads interleave: the memory orders are not modelled. One
-- caller at a time uses the platform, a container but in Container/Threads.antt and a mailbox but in
-- Mailbox/Threads.antt. The platform calls operations of the container of mailboxes, and reads fields
-- of a mailbox, that the repository does not have; they are the record MailboxList of Platform.antt, a
-- parameter. So is the mask ITC_MASK_TIMEOUT.
-- The traces are not modelled. The mutexes are where a thread can be stuck at one (ThreadManager.antt)
-- or what is done under one is a step (ThreadPool.antt), and are left out elsewhere.
-- Not modelled: sw/itc-common/src/itcCWrapper.cc, which only passes its arguments to the C library.
pub mod Common
pub mod Queue
pub mod Message
pub mod Mailbox
pub mod Container
pub mod Transport
pub mod ThreadManager
pub mod SyncObject
pub mod FileSystem
pub mod Platform
pub mod ThreadPool
pub mod Memory
mod Examples
