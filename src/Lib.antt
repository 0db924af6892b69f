-- ===== src/Lib.antt =====
-- Verification of GIS, a node of a blockchain of domain names with a DNS resolver.
--
-- The program keeps a chain of blocks in an SQLite file (src/blockchain), takes blocks from peers
-- (src/p2p) and from its own miner (src/miner.rs), checks each against the chain it has, and
-- answers DNS queries (src/dns) from the chain's domains or from other servers. What is modelled
-- here is the part that decides: the check of a block and the state that it leaves, the choice of
-- signers, what the network makes of messages and of its peers, the wire format and the cache of
-- DNS, and the answers to queries.
--
-- Files and code:
--   Base: shared words, Boolean tests, lists on native numbers, `Outcome` for code that panics
--     or that loops on fuel, and the wrap-around of 64-bit words.
--   Bytes: src/bytes.rs and the measures of src/blockchain/hash_utils.rs. A `Bytes` value, a
--     slice and a `String` are lists of numbers below 256.
--   Commons: src/commons/mod.rs and src/commons/constants.rs.
--   Blockchain/Types and Env: src/blockchain/block.rs, transaction.rs and types.rs, and what the
--     chain takes from src/keys.rs. `Env` holds what is not written in this repository: the clock,
--     BLAKE and SHA-256, JSON, Ed25519, and the row that SQLite gives where a query with LIMIT 1
--     has several.
--   Blockchain/Chain: src/blockchain/chain.rs. `Chain` is the struct with its caches, and the
--     file is `Db`, three tables as lists in the order of insertion: a truncation and an insertion
--     are functions on them, and `add_block` panics where the primary key of a table is already
--     used. State has the tables, Queries the SELECTs, Signers the cache and the choice of
--     signers, Check the stages of `check_block` in the order of the code, Update the writes,
--     Mining the signing blocks. The other children hold the proofs.
--   Dns/Buffer: src/dns/buffer.rs. The trait is a record of operations, its provided methods are
--     generic over it, and Vector and Fixed are two of its implementations.
--   Dns/Protocol: src/dns/protocol.rs, from numbers and flags to whole packets. Types, Record,
--     Header and Packet have the code. Of the proofs, Codes and Flags are about numbers, RoundTrip
--     about headers and questions, Written about records, Sections and Fitting about how many
--     records a packet takes, and Parts, Sent and Whole about the packet.
--   Dns/Cache: src/dns/cache.rs, entries by name and by type, with the time as an argument and
--     with the names whose entry has another owner.
--   Dns/Filter: src/blockchain/filter.rs, the answers from the chain. Dns/Hosts:
--     src/dns/hosts.rs.
--   Dns/Authority: src/dns/authority.rs. The sets and maps are lists in the derived order of
--     their keys.
--   Dns/Resolve: src/dns/resolve.rs, `DnsResolver::resolve` over the `perform` of either
--     resolver, with what they use of src/dns/context.rs, and `resolve_cnames` of
--     src/dns/server.rs. A state has the cache, the chain and the number of calls to the outside;
--     what comes back from another server, and random numbers, are functions of that number.
--     Perform has the two resolvers, and Cnames what follows an alias.
--     Dns/Server is `execute_query`, and Dns/Start what src/dns_utils.rs sets up. Dns/Server/Udp
--     is the UDP server of src/dns/server.rs: where each of its threads stands, and a step
--     relation that interleaves them.
--   Dns/Client: src/dns/client.rs, the pending queries of `DnsNetworkClient` and what its
--     threads do to them; Steps interleaves the threads. A channel is a number and the messages
--     sent over it.
--   P2p/Addr, Message, Peer: the addresses of std::net, src/p2p/message.rs, and src/p2p/peer.rs
--     with state.rs. A socket is what it is registered for and the bytes that were handed to it.
--   P2p/Peers: src/p2p/peers.rs. The map of the peers is a list in the order in which it is gone
--     through, which is any order. Update and Connect have the stages of `update` and the outgoing
--     connections; random numbers, the clock and what can be connected are arguments.
--   P2p/Network: src/p2p/network.rs. Context is the part of src/context.rs and src/event.rs that
--     it uses, Stream reads and writes messages, Blocks is `handle_block`, Handle is
--     `handle_message`, and Loop the handler of socket events and the rounds of the thread in
--     `Network::start`. What `poll` and `accept` give is a list of events. JSON and the text of
--     addresses are the record `Codec`. Laws says what a property of the peers needs to survive
--     the thread, and Rounds that it does.
--
-- Numbers: a release build is modelled, where `+`, `-` and `*` on 64-bit words wrap (add64, sub64,
-- mul64) and casts to `i64` are read as signed. Times are compared as signed words.
--
-- Loops: `signers_loop`, `read_labels`, `read_loop` and `recurse` take fuel, since nothing in the
-- source bounds their rounds; `stuck` is the answer without fuel. Theorems say when a bound is
-- enough, and when none is. Every other loop is a recursion on its list or its count.
--
-- Not modelled: other threads than those of the network, of the UDP server and of the DNS client,
-- TCP for DNS, two queries of the resolver at once, poisoned locks but that of the client, the
-- window and the command line, the files of the key store and of the settings, opening and
-- migrating the database, logging, JSON, and Unicode beyond ASCII in names.
pub mod Base
pub mod Bytes
pub mod Commons
pub mod Dns
pub mod Blockchain
pub mod P2p
