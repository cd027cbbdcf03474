-- ===== src/Lib.antt =====
-- A model of the core of OTServBR-Global, a game server for Tibia clients written in C++, and its
-- properties. All paths are from the repository's root.
--
-- The program's parts. Sockets are read and written by `Connection` (src/connection.cpp), which
-- asks `Ban` (src/ban.cpp) whether an address may connect, cuts the stream into packets and hands
-- them to a `Protocol` (src/protocol.cpp). The protocol decrypts a packet (src/xtea.cpp), and its
-- subclasses read the entries with `NetworkMessage` (src/networkmessage.cpp). Outgoing messages
-- take the same way back, with a checksum (src/tools.cpp) or a sequence number in front
-- (src/outputmessage.h). A client that logs in may have to wait in the `WaitingList`
-- (src/waitlist.cpp). What the players do becomes a task of the `Dispatcher` (src/tasks.cpp), the
-- only thread that touches the game; what is to happen later is an event of the `Scheduler`
-- (src/scheduler.cpp), which hands it to the dispatcher in time. The game finds players by the
-- beginnings of their names in a `WildcardTreeNode` (src/wildcardtree.cpp). A `Player`
-- (src/player.cpp) gains and loses experience and levels, and may belong to a `Party`
-- (src/party.cpp), which the actions of src/game.cpp drive. Two players trade items by the requests
-- and acceptances of src/game.cpp, which watches the items on the table, and pay with the coins that
-- they carry and with their bank balance. Items lie in a `Container` (src/container.cpp), which may
-- lie in another one. Creatures find their ways by a search over the tiles (src/map.cpp). The map and
-- the item types are loaded from files of nodes by `OTB::Loader` (src/fileloader.cpp).
--
-- Which file models which part:
--   Common            names passed on from the libraries, Boolean tests, lists, machine words, bits,
--                     buffers (a memory is a function from offsets to bytes) and places (a store
--                     of objects is a function from addresses)
--   WaitList          src/waitlist.cpp: `WaitListInfo`, `cleanupList`, `findClient`, `clientLogin` and
--                     `getClientSlot`; `clientLogin` is cut at its early returns into `is_exempt`,
--                     `is_open`, `retry` and `enqueue`
--   WildcardTree      src/wildcardtree.cpp: `insert`, `remove` and `findOne`; a `std::map` of children
--                     is an association list
--   Xtea              src/xtea.cpp: encryption and decryption of a buffer for each block size that a
--                     build can have
--   NetworkMessage    src/networkmessage.h and src/networkmessage.cpp: readers and writers
--   Adler             `adlerChecksum` of src/tools.cpp
--   Connection        src/connection.cpp: the state of a connection, its reads and writes, the login of
--                     the server name, the queue of messages and closing
--   Protocol          src/outputmessage.h, the ciphering of src/protocol.cpp, the framing of
--                     src/connection.cpp
--   Ban               `Ban::acceptConnection` of src/ban.cpp
--   Dispatcher        src/tasks.h and src/tasks.cpp
--   Scheduler         src/scheduler.h and src/scheduler.cpp
--   FileLoader        src/fileloader.h and src/fileloader.cpp: `PropStream`, `PropWriteStream` and
--                     `getProps`; FileLoader/Tree has the constructor of `OTB::Loader` and
--                     `parseTree`, whose loop is an automaton over the bytes
--   Experience        `addExperience`, `removeExperience`, `getPercentLevel` of src/player.cpp and
--                     `getExpForLevel` of src/player.h
--   Party             src/party.cpp and the party members of a player; Party/Operations has the methods
--                     that change players and parties and the six player actions of src/game.cpp
--   Container         src/container.cpp: a container with the containers around it, its weight and that
--                     of items (src/item.cpp), `ContainerIterator`, `queryAdd`, `queryMaxCount`,
--                     `queryRemove` and `getFreeSlots`
--   Trade             the trades of src/game.cpp: `playerRequestTrade`, `internalStartTrade`,
--                     `playerAcceptTrade`, `playerCloseTrade` and `internalCloseTrade`, with
--                     `checkTradeState` of src/player.cpp
--   PathNodes         the nodes of the path search, `AStarNodes` of src/map.cpp, with the rounds of
--                     `Map::getPathMatching`
--   Money             `addMoney` and `removeMoney` of src/game.cpp, with `getWorth` of src/item.cpp
--
-- Correspondence. A class is a record of the members that its operations read or write, an operation
-- a function from the state to the answer and the new state. Definitions have the names of the code
-- in the spelling of this language (`clientLogin` is `client_login`). Readings of the clock, settings
-- and the size of a template's type are arguments. Unsigned members wrap around at their width; a
-- signed difference is kept by its bit pattern. A mutex makes the operation that it guards one step,
-- so an interleaving of threads is a sequence of steps.
--
-- Bounds and fuel. The outer loop of `adlerChecksum` runs on fuel, the number of bytes, and takes
-- at least one of them each time. The loops of the dispatcher and of the scheduler are rounds,
-- and the theorems say how many are enough. The loops of a container's iterator run on the number
-- of items in it, the way back of a path on the cost of its node. The search for coins runs on fuel,
-- one step for each container, and the loop of
-- `addMoney` on the number of crystal coins. All other loops are recursions on the list or the
-- count that they go through.
-- The loops over levels run on fuel: the experience is enough to rise, the level to fall, and the
-- theorems reach levels below 700000, beyond which the 64-bit requirement of a level still has
-- room to grow. Messages have at most 24590 bytes, as in the code.
--
-- Not modelled. The sockets, timers, threads, files and the database are calls of libraries. The
-- subclasses of `Protocol` are sequences of the readers and writers that are modelled here. The game
-- itself beyond that (tiles, creatures, combat, houses), the scripts and their bindings are not
-- here. `addDouble` is floating point, `addItemId` reads the table of the item types, `RSA_decrypt`
-- calls a library for big numbers. What is sent to a client beside the packets is not part of a state.
pub mod Common
pub mod WaitList
pub mod WildcardTree
pub mod Xtea
pub mod NetworkMessage
pub mod Adler
pub mod Protocol
pub mod Ban
pub mod Dispatcher
pub mod Scheduler
pub mod FileLoader
pub mod Experience
pub mod Party
pub mod Container
pub mod Trade
pub mod Money
pub mod Connection
pub mod PathNodes
