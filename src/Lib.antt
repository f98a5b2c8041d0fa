-- ===== src/Lib.antt =====
-- Verification of a peer-to-peer gossiper whose members are admitted by a proof of work.
--
-- The program (code/*.go) is one process: a gossiper that spreads rumors, private messages and files,
-- behind a gate that lets in packets only of nodes that have mined a block of a shared chain. A node
-- that wants to join is sent a puzzle by the first member that it contacts, mines a block for it, and
-- is sent the chain; its membership expires with its block.
--
-- Parts and files:
--  - Chain: code/blockchain.go. Chain/Block is the type Block with its bytes, hash and isValid;
--    Chain/Ledger the type BlockChain with addBlock, nextNodeID, checkIntegrity and
--    nonExpiredBlockChain; Chain/Mining mineBlock and initGenesis; Chain/Platform what comes from Go's
--    library (SHA-256, Gob, RSA), with the laws that are used as fields.
--  - Messages: the messages of all parts and GossipPacket, code/helper.go.
--  - Puzzles: PuzzlesState and its handlers, code/puzzleshandler.go.
--  - Network: several nodes of code/puzzleshandler.go and the packets between them.
--  - Neighbors: the neighbours that a node watches and the goroutines that watch them, of
--    code/node_communication.go and the type SybilResistanceHandler.
--  - Sybil: handleGossipPacket of code/sybilresistance.go, with the rounds and the timeouts of
--    code/node_communication.go and the signatures of code/digital_signatures.go.
--  - Node: the type State of code/helper.go.
--  - Gossip: vector clocks and what is stored of rumors, code/helper.go; Gossip/Spreading the handlers
--    of rumors and statuses, code/gossiper.go.
--  - Routing: routes and peers, and in Routing/Private private messages, code/helper.go and
--    code/gossiper.go.
--  - Files and Search: code/filehandler.go and its handlers of code/gossiper.go. Files is what is stored
--    and read, Files/Transfer the requests and replies, and Files/Transfer/Fetching the goroutines of
--    download and downloadGUI; Files/Transfer/Exchange hands the packets of two gossipers to each other. Search is the requests of searches and Search/Results the replies.
--  - Dispatch: the loop of listenPeers of code/gossiper.go, which calls the handlers of all parts, and
--    in Dispatch/Clients that of listenClient.
--  - Client: the packet that code/client/client.go makes of its flags, and what it writes.
--  - Web: the handlers of code/handlers.go, and in Web/Routes the routes of webServer.
--  - Start: the state that main of code/gossiper.go starts with.
--  - Samples and the modules named Tests: concrete states, at which the theorems are applied.
--
-- State and operations: a struct is a record with the source's fields, and a method that changes its
-- receiver is a function to the new state. A packet that is sent is added to the list conn of
-- PuzzlesState, which stands for the UDP connection. A map is an association list, whose order stands
-- for one order of a range over the map. A run-time panic is the result panic of Outcome. Clock
-- readings and random numbers are arguments: a clock is a function from the number of the reading, in
-- nanoseconds. A timer is an event, and so a call of the function that its goroutine runs. What is sent
-- on a channel is part of the result or a list in the state; the channels of the downloads have numbers.
-- A goroutine that waits on a channel is a record of where it stands, and a function takes it from
-- one receive to the next.
--
-- Bounds and fuel: nextNodeID is given one round more than the chain has blocks, which is enough.
-- mineBlock and initGenesis take the number of rounds as an argument; enough is one round more than the
-- one in which the clock passes the time limit. addFile and splitMetafile take as many rounds as there
-- are bytes, and one more. An unsigned integer is a number with the wrap-around written out where the
-- code can reach it; a Go int that may be negative is the type of Base/Int, without its 64-bit bound.
--
-- Not modelled: printing, but for printPeers, which may panic, the encoding and decoding of packets,
-- which are parameters where the client meets the gossiper, and of JSON, sockets, HTTP, the server of
-- files, the page code/index.html, the key that main makes, races between goroutines, the waiting of a
-- sender on a channel that nobody receives from, except on MsgRecv, that the slices of peers of State
-- and PuzzlesState may share an array, IPv6 addresses.
pub mod Base
pub mod Chain
pub mod Client
pub mod Dispatch
pub mod Files
pub mod Gossip
pub mod Messages
pub mod Neighbors
pub mod Network
pub mod Node
pub mod Puzzles
pub mod Routing
pub mod Samples
pub mod Search
pub mod Start
pub mod Sybil
pub mod Web
