-- ===== src/Lib.antt =====
-- Solon, a Docker engine for Windows: a service on Windows (crates/solon-service) keeps a small
-- virtual machine with dockerd, an agent (crates/solon-agent) runs inside it, and both share the
-- messages and the masking of crates/solon-core. This library models the parts that decide
-- something; what follows names the files, which follow the sources function by function and keep
-- their names.
--
-- Base          what the sources use of the standard library: texts as their UTF-8 bytes (Text, Utf8,
--               Split, TextEq), lists over the native numbers, maps and sets as lists (Map)
-- Mask          crates/solon-core/src/mask.rs. Names holds the lists of suspicious names, FreeText the
--               scans for addresses and telephone numbers, Params the URLs, forms and headers, Json the
--               scan of JSON texts, Body the choice by content type. Hides, Emails, Phones, Plain and
--               JsonEnds hold the proofs
-- Protocol      crates/solon-core/src/protocol.rs: the messages that the other parts use
-- Ports         crates/solon-service/src/ports.rs: the table of the relays of published ports; what a
--               relay does with its connections is left to Sleep (`on_connection`) and not modelled.
--               Keys, Opening and Laws hold the proofs
-- Trace         crates/solon-service/src/trace.rs: the hub of observed facts (`TraceHub`). The proofs
--               are in History. What the hub keeps was masked before by Mask, in the HTTP proxy
-- Sleep         crates/solon-service/src/sleep.rs: the containers put to sleep and woken (`Sleeper`).
--               Each function that holds the lock from its start to its end is one definition, and
--               where the code gives the lock back there is one for each part; Guards has the
--               interleavings as a step relation, Laws what tables and connections do, Candidates the
--               choice of the loop, Late the orders in which a connection can come
-- DockerProxy   crates/solon-service/src/docker_proxy.rs: the proxy in front of the API of Docker. Path
--               and PathLaws are the translation of paths, Head the heads of requests, Copy the copies,
--               Forward the requests of a client, Rewrite the mounts of a creation. Conserve, Chunked,
--               Rounds, Reading, Requests and Pipelined hold the proofs
-- FileServer    crates/solon-core/src/fs.rs and crates/solon-service/src/fileserver.rs: Frame the frames
--               of the protocol, HostPath the paths, Handle the requests, HandleLaws the proofs
-- Solonfs       crates/solon-agent/src/solonfs.rs: the file system in the machine. Effect is the form of a
--               handler, Call the exchange with the host, Fetch the requests behind the caches, Handlers,
--               Write and Dirs the operations. Keeps, KeepsAll, Tables, Moves, Laws, Names, WriteLaws and
--               Pages hold the proofs. Its requests are those that FileServer answers
-- Domains       crates/solon-service/src/domains.rs: the domains of the containers (Domains, Table), the
--               block in the hosts file (Hosts), the heads that the HTTP proxy reads and rewrites (Head),
--               the bodies that it relays and what it keeps of them (Bodies), where a first request goes
--               and the pages (Page), the loop of the requests (Requests) and the task of the responses
--               (Pump), both of `handle`. Exchanges says what the former leaves. Table, HostsLaws, HeadLaws, BodiesLaws, ForwardLaws, Lines,
--               Relayed, ChunkLaws, LinesCome, ChunkComes, ChunksCome, PageLaws, RoundLaws,
--               RequestsLaws, PumpLaws, CloseLaws, Waiting and Pairing hold the proofs. What it keeps is masked by Mask
-- Engine        crates/solon-service/src/engine.rs: the drives shared with the machine (Shares), and
--               `guest_path_for` of crates/solon-core/src/ipc.rs. PortLaws and FailureLaws hold the proofs
-- Dns           crates/solon-agent/src/dns.rs: Name and Answers read messages, Table is the table of
--               names
--
-- State is a record and every operation a function on it; a lock that is given back separates two
-- functions. Time is a number of milliseconds. A `usize` is a natural number where it measures data
-- in memory; numbers that are parsed are bounded by 2 ^ 64, the 32-bit lengths of a frame and the
-- sum `size + 2` of a chunk keep their wrap-around.
--
-- Loops that are not structural run on fuel: the number of bytes of the text for the scans of Mask
-- (one more for a JSON text); one more than the bytes that are pending for the copies and requests of
-- DockerProxy and the reads, chunks, requests and responses of Domains, since a round takes a byte at
-- least; one more than the length of the message for the labels of Dns; one more than the number of
-- bytes of a write for its pieces, since a piece writes one at least; one more than the number of
-- ports in use for the search of a free one; and the length of a path for the prefixes in front of it.
--
-- Parameters stand for what is not in the sources: the answers of Docker (`Docker`), the JSON library
-- (`Json`), the file system of Windows (`FileSystem`), how Windows reads a path with two backslashes
-- in front, the text of an IPv6 address, for Solonfs the host, the clocks and what a connection sends
-- back (`Host`, `transmit`), for the hosts file what each attempt to read or write it gives. In
-- Domains the requests that come into the queue before a round, the clock and what a slot holds when
-- it is emptied are arguments, and the `Arc` that a request gets for its body is its number, in Engine the answers of a call (`Answers`). Clients of a proxy are
-- lists of pieces, and what a proxy writes arrives.
--
-- Not modelled: the hypervisor and its sockets, processes, pipes and threads, the command line and the
-- desktop application, the certificates, the route and the sockets of
-- crates/solon-service/src/domains.rs, the states of the engine and the probes of the agent.
pub mod Base
pub mod Mask
pub mod Protocol
pub mod Ports
pub mod Trace
pub mod Sleep
pub mod DockerProxy
pub mod FileServer
pub mod Solonfs
pub mod Dns
pub mod Domains
pub mod Engine
