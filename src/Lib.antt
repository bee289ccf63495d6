-- ===== src/Lib.antt =====
-- A verification library for ZLToolKit, a C++ toolkit of network and threading parts.
--
-- The parts modelled, by file, with the code's paths from the repository's root:
--   Bytes        src/Util/Byte.hpp: reading and writing of integers at an offset of a byte array.
--   Buffer       src/Network/Buffer.h, Buffer.cpp: BufferRaw, the block of bytes behind every packet.
--     Like         BufferLikeString, a string with bytes hidden at both of its ends.
--   Network      what a socket sends and reads.
--     Kernel       what the environment chooses: the answers of the calls that send.
--     SendMsg      src/Network/BufferSock.cpp: BufferCallBack and BufferSendMsg, a list of buffers that
--                  sendmsg takes in parts.
--     SendMmsg     BufferSendMMsg: datagrams that sendmmsg takes in part.
--     SendTo       BufferSendTo: buffers sent one by one.
--     RecvBuffer   SocketRecvBuffer::create: the sizes of the blocks of a receive buffer.
--     Receive      src/Network/Socket.cpp: onRead, with the loops of recvFromSocket.
--     Socket       src/Network/Socket.cpp: send_l, flushAll, flushData, onWriteAble, enableRecv, emitErr
--                  with its task, closeSock; a packet of the second-level list is a SendMsg.
--     Connect      src/Network/Socket.cpp: connect_l, onConnected and the end of an attempt.
--     Accept       src/Network/Socket.cpp: onAccept.
--     TcpServer    src/Network/TcpServer.cpp: the sessions of a server, its manager, and the clones.
--     UdpServer    src/Network/UdpServer.cpp: the sessions that a server and its clones share, with the
--                  tasks between pollers; PeerId is makeSockId.
--   Kcp          src/Network/Kcp.h, Kcp.cpp: the reliable transport over datagrams.
--     Header       KcpHeader: loadHeaderFromData, storeHeaderToData (through Bytes).
--     Packet       KcpPacket: parse, loadFromData, storeToData, setPayLoadSize (through Buffer).
--     State        KcpTransport: its members as a record, the constructor, the setters.
--     Rtt          updateRtt.
--     Receive      handleCmdPush, sortRecvBuf, peeksize, onData, getRcvWndUnused.
--     Send         the checks and fragments of send, mergeSendQueue, sortSendQueue, dropCacheByUna,
--                  dropCacheByAck, updateFastAck, getWaitSnd.
--     Congestion   increaseCwnd, decreaseCwnd.
--     Flush        sendPacket, flushPool, sendAckList, sendProbePacket, sendSendQueue, update.
--     Input        input with handleAnyPacket and handleCmdAck: the loop over a datagram.
--     Api          send as a whole.
--   Ring         src/Util/RingBuffer.h.
--     Storage      _RingStorage: the cache of groups of frames.
--     Dispatcher   _RingReaderDispatcher: the readers of one poller.
--     Hub          RingBuffer: one cache, the dispatchers of several pollers, and the tasks that wait
--                  for each.
--   Poller       src/Poller/EventPoller.cpp.
--     Delay        the delayed tasks, flushDelayTask and getMinDelay.
--     Timer        src/Poller/Timer.cpp: timers over the delayed tasks.
--     Async        the tasks of other threads, async_l and onPipeEvent.
--     Events       addEvent, delEvent, and the loop of runLoop over a batch of events.
--   Thread       src/Thread/TaskExecutor.h, TaskExecutor.cpp: the load of a thread, and the choice of
--                the least loaded executor.
--     TaskQueue    src/Thread/TaskQueue.h over the counter of semaphore.h.
--   Util         src/Util.
--     ResourcePool src/Util/ResourcePool.h: the recycling of objects.
--     Notice       src/Util/NoticeCenter.h: EventDispatcher and NoticeCenter.
--     Text         src/Util/util.cpp: split, trim, replace, start_with, end_with.
--     File         src/Util/File.cpp: parentDir and absolutePath (through Text).
--   Kit          lists, Boolean tests, machine words and hash maps over the native numbers.
--
-- How the code is read. A function that changes members is a function from the record of the members
-- to the next one, with the functions it calls composed in its order. The callbacks onWrite, onRead
-- and onErr append an event to the record, so what leaves the transport is a list in order. A clock is
-- an argument: one reading serves each call of input and update. Unsigned members are natural numbers
-- below 2 ^ w with the wrap-around written out; the int32_t members of the round-trip estimate are
-- their bit patterns. Memory that the program has not written, of a block or of a member, is a
-- parameter (Uninit), and no theorem knows its value. A copy past the end of a block is none.
--
-- Loops. The loops over lists are recursions on the list. The loop over a datagram is by fuel, the
-- number of rounds, which Kcp.Input.Progress compares with the bytes of the datagram. Each round of the loop in
-- onData takes a packet off the queue, so the queue's length bounds it. flushData calls itself on the poller's
-- thread: three rounds are enough, one for each list and one that finds both empty. The loops around
-- sendmsg run over the kernel's answers, and theorems ask that one of these is a refusal. The loops of
-- split and replace are by fuel, and as many rounds as the text has bytes, and one more, are enough;
-- absolutePath calls itself once for a current directory that is relative.
--
-- Threads. A call that holds a lock, and a task that a poller runs, are one step. For KcpTransport the
-- sequence of calls stands for what its poller runs; for RingBuffer the posted tasks wait in a queue
-- for each poller, and a history is a list of steps in any order. A socket's operations are steps too:
-- a send of another thread between the two halves of flushData is not modelled. A datagram of the UDP server
-- comes as one step, or as what follows the look into the map under its first lock, with that look at an earlier moment.
--
-- A hash map is the list of its entries in an order of its own: where a new entry goes is an argument. An object
-- that several parts share is a position in a list, which they refer to.
--
-- Not modelled: sending by a UDP socket, and the system calls that set sockets and servers up; the calls of epoll,
-- kqueue and select; logging; the functions that open files, TLS and SQL, which call other libraries; and
-- the copies of other projects' code, the adapted mINI library of src/Util/mini.h among them. The timer that calls update, and the network between two transports, are the
-- sequence of calls that a theorem quantifies over.
pub mod Kit
pub mod Bytes
pub mod Buffer
pub mod Kcp
pub mod Ring
pub mod Thread
pub mod Util
pub mod Poller
pub mod Network
