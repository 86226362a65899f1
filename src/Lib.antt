-- ===== src/Lib.antt =====
-- Parlo++, an asynchronous TCP networking library in C++.
--
-- A `NetworkClient` (NetworkClient.cpp) owns a `Socket` and a `ProcessingBuffer`. Bytes that asio
-- reads go to the buffer; the buffer's own thread cuts them into `Packet`s and calls the client's
-- handler, which notes heartbeats and goodbyes and hands data to the user, decompressed where it
-- is marked. Two more threads send heartbeats and count the missed ones. A `Listener` makes a
-- client for each connection that it accepts and keeps the clients in a `BlockingQueue`.
--
-- Common: lists, bytes and words over the native ℕ, 64-bit counts, exceptions as values
--   (`Result`).
-- Packet: Packet.cpp, PacketHeaders.h; the two constructors and `buildPacket`.
-- ProcessingBuffer: ProcessingBuffer.cpp. `addData` and a round of `processPackets` hold the mutex
--   from end to end, and a run is a list of such atomic steps in any order: `step` and `run` with
--   `Event`s. Interleaving has the threads step by step, down to the byte that is pushed or popped
--   and the operations on the mutex and the condition variable; its Atomic relates them to `run`,
--   Progress follows one round, Rounds the way to the next, Wakeups the notifications.
--   Framing, Rounds and Tracking hold the invariant that ties a run to the packets that were sent.
--   Reference is a decoder of whole streams, malformed ones included.
-- HeartbeatPacket, GoodbyePacket: the files of those names, with the clock's reading as an
--   argument.
-- Compression: `compressData` and `decompressData` of NetworkClient.cpp. zlib's streams are a
--   parameter, `ZStream`, with zlib's documented counting of its output and progress on `Z_OK`;
--   `IsLossless` is what zlib documents of a whole stream. Compression/Stored is an example of both.
-- NetworkClient: NetworkClient.cpp. Sending has `sendAsync` and `shouldCompressData`, Receiving
--   the handler of packets, Heartbeats the rounds of the two heartbeat threads, Closing
--   `disconnectAsync`, the destructor and the setters, Lifetime the constructors, `connectAsync` and
--   whole lives of a client, Watch checks and heartbeats in any order, Race the two threads of these
--   with all their interleavings, Parting these and `disconnectAsync`, which joins them, Session a
--   client whose buffer is given the packets of a peer, Farewell one that is given a goodbye. Method
--   names are the source's in lower case with underscores.
-- BlockingQueue: BlockingQueue.h, each call one step; a call that waits gives `none`. `queue.pop()`,
--   which `std::deque` does not have, is a parameter. Runs has all calls that compile, Fifo those that
--   take the front item, Waiting any number of threads with the two condition variables.
-- Listener: Listener.cpp; Clients follows the queue of clients through what happens to a listener,
--   Accepting its loop of accepts, Completions the end of an accept with the client that is made.
-- Socket: Socket.cpp and Socket.h, over asio's socket as a parameter (`Asio`) with what asio
--   documents (`IsAsio`); Closing has how `disconnectAsync` closes it, for which a Boolean
--   stands in NetworkClient, Sharing the one socket into which a listener accepts.
-- Logger, PacketHandler: the headers of those names.
-- EncryptedPacket: EncryptedPacket.h, EncryptionArgs.h and EncryptionMode.h, over Crypto++ as a
--   parameter (`Crypto`); Building has what is built, Hex `hexStringToByteArray`.
--
-- An asynchronous operation is two functions, one that starts it and one for its completion. A
-- method returns the client with an `Exit`: it returned, threw, or went on to undefined behaviour
-- or to `std::terminate`. `shared_from_this()` throws `bad_weak_ptr` unless a `shared_ptr` owns
-- the object, and the fields `impl_shared` and `owner_shared` say whether one does. A byte is a
-- number below 256; 16-bit lengths wrap (`% 65536`), and the difference that sizes a packet's body
-- wraps at 2 ^ 64. No loop of the code has fuel: the loops over bytes are structural, and those over a
-- zlib stream recur on the accessibility of a measure. The loop of `acceptAsync`, which need not
-- end, is followed for as many rounds as are asked for.
--
-- Not modelled: the calls of `Logger::Log` in the other parts; times that threads sleep; handlers of
-- the user's that throw or do not return, except the ones in Parting that wait; overflow of signed
-- 64-bit times and durations, which are unbounded integers here; interleavings within a handler or a
-- round outside ProcessingBuffer/Interleaving, NetworkClient/Race and NetworkClient/Parting, since
-- each is one step there; and the dangling reference of `asio::buffer(data)` in `sendAsync`, where
-- the bytes that are passed are recorded.
pub mod Common
pub mod Packet
pub mod ProcessingBuffer
pub mod HeartbeatPacket
pub mod GoodbyePacket
pub mod Compression
pub mod NetworkClient
pub mod BlockingQueue
pub mod Listener
pub mod EncryptedPacket
pub mod Socket
pub mod Logger
pub mod PacketHandler
