-- ===== src/Lib.antt =====
-- XYZwhiteboard: a whiteboard that several users draw on together. Clients send requests as protobuf
-- packets to a server, which keeps whiteboards and users in MongoDB and the connected sockets of
-- each shared whiteboard in memory, and sends every change to all sockets of a session.
--
-- The parts, and the files that model them:
--   proto/*.proto                       Proto, Action: the messages as records and sums
--   src/base/element.hpp, element.cpp   Element: the class WhiteboardElements and its getters;
--                                       Element.Convert: to_protobuf, from_protobuf;
--                                       Element.Print: print
--   src/base/packet.hpp, packet.cpp,    Packet: the class WhiteboardPacket, its constructors and
--   packet_client.cpp,                  new_packet; Packet.Build: the builders of requests and
--   packet_server.cpp                   responses
--   src/base/utils.hpp, utils.cpp       Sha256: the rounds (Round), the buffer and the padding
--                                       (Stream), and hexadecimal text (Text), against the hash
--                                       of a padded message (Stream.Reference); the salt is in
--                                       Server.Users
--   src/server/server.hpp               Server.State: the state and send_packet; Server.Sessions:
--                                       the table of sockets
--   src/server/server.cpp               Server.Users: getNextSequence and the requests on accounts;
--                                       Server.Elements: broadcast, unicast, and the requests to add
--                                       and to modify an element; Server.Boards: the requests to
--                                       create a whiteboard, and to create, join and quit a session;
--                                       Server.Connection: the loop that dispatches packets;
--                                       Server.Accept: the loop that accepts connections;
--                                       Server.Running: the constructor, that loop and the workers
--                                       together, as the steps of threads that interleave; in
--                                       Server.Acts the handlers' acts
--   src/server/thread_pool.hpp          Server.ThreadPool: the queue of tasks and its workers, as
--                                       the steps of threads that interleave
--   src/base/network.hpp, network.cpp   Network: a listener and its sessions, apart from the server
--   packet.cpp, server.cpp, client.cpp  Wire: packets as bytes, serialize and parse_packet
--   src/client/client.hpp, client.cpp   Client: the state and the requests; Client.Receive: what the
--                                       client receives; Client.Connect: its asynchronous handlers
-- Exchange puts a client and the server together: one request of the client, its handler, and what
-- the client makes of the packets that come back. Exchange.Many has a client at each socket, and lets
-- requests, handlers and responses interleave, and packets be lost.
--
-- A handler is an action on the server's state (Base.Fail): it gives a value or throws, and what it
-- changed before it throws stays. The function names are those of the source, in this library's
-- spelling. The state holds the database, the table of sockets, the log of packets sent to each
-- socket, in order, and the number of draws from outside.
--
-- The database is not part of the repository: Server.Mongo.Mongo is an interface of the operations
-- that the server calls, and Server.Mongo.Documented states what MongoDB documents of them while it
-- answers. Examples.Memory is a database in memory that has these laws. The values of rand(), of
-- the clock and of the salt's random device, and protobuf's serialization of elements, are the
-- fields of Server.State.Host, and so is whether a write to a socket returns or throws: send_packet
-- catches the exception, and the packet is lost.
--
-- Every definition is total: the loops go through a list or count down a number of passes, so there
-- is no fuel to run out of. Numbers of 32 and 64 bits wrap around in Sha256, and so does the client's
-- counter of packets; the other ids are carried unchanged.
--
-- protobuf's bytes are the parameter Wire.Protobuf, with the laws Wire.DocumentedWire, of which
-- Examples.Wire has an instance. What read_until leaves in the buffer is an input of the loops, and
-- so are, for the client's asynchronous half, the clock and the errors of its operations.
--
-- How handlers interleave: Server.Connection.serve, the theorems on it and Exchange run each handler
-- to its end before the next one. In Server.Running the acts of handlers on different threads come
-- between one another, and nothing is assumed of their order; what is said of that is what each
-- act keeps. What serve computes is among the outcomes of these runs (Server.Running.Turns). The acts
-- themselves are taken to be atomic.
--
-- Not modelled: undefined behaviour of the table when two threads change it at once, calls of
-- Boost.Asio and OpenSSL, the lines printed on the console except those of print, of network.cpp and of
-- the endpoints tried, the other two functions serialize of packet.cpp, which only call protobuf, and
-- the example programs.
pub mod Base
pub mod Proto
pub mod Element
pub mod Action
pub mod Packet
pub mod Wire
pub mod Sha256
pub mod Server
pub mod Network
pub mod Client
pub mod Exchange
mod Examples
