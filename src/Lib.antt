-- ===== src/Lib.antt =====
-- The OLSR routing daemon: the protocol core of internal/olsr, the handlers of cmd/olsrd that drive it,
-- the configuration, the HTTP API, and the routers that take its routes to zebra and to the kernel.
--
-- A node receives packets (packet.go), which carry HELLO, TC, MID, HNA, SOURCE CLAIM and CONFIRM
-- PARENT messages. The daemon decodes a packet, drops the messages that it has seen (topology.go),
-- and gives each to the manager of its type: the NeighborManager (neighbor.go) keeps the links, the
-- neighbours, the 2-hop neighbours and the multipoint relays, the TopologyManager (topology.go) the
-- links that others advertise and their aliases, the HNAManager (hna.go) the networks behind
-- gateways, and the MOLSRManager (molsr.go) the multicast trees. A manager publishes events
-- (internal/eventbus) when its tables change, on which the routes are calculated anew (spf.go) and the
-- differences sent to the routers: over a socket to zebra (internal/zebra), and by system calls to the
-- kernel's multicast forwarding, with a filter against loops (internal/mroute). On timers the daemon
-- sends its own HELLO, TC and HNA messages and ages the tables; what it receives it may forward.
--
-- Files:
--   Base and its children: numbers, tests, lists, texts, results; Base/Map is a Go map, Base/Nested a
--     map of maps and the loops that age it out, Base/Changes the two loops that announce how a table
--     differs from its new version.
--   Net, Net/Cidr: net.IP, net.IPNet and their String methods, time.Duration and time.Time. Net/Parse:
--     net.ParseIP, net.ParseCIDR and IPNet.Contains. Net/Named: the texts of addresses.
--   A child Laws states what the methods do to the entries of the tables, a child Reach which states
--     the methods lead to, a child Tests runs them.
--   Packet: the types of internal/olsr/packet.go. Packet/TimeVal is EncodeTimeVal and DecodeTimeVal,
--     Packet/Serialize is SerializePacket and its helpers, Packet/Deserialize is DeserializePacket and
--     its helpers; the other children prove.
--   EventBus: EventType and Event of internal/eventbus/bus.go.
--   Neighbor: the types of internal/olsr/neighbor.go. Neighbor/Ops is ProcessHello, Neighbor/Mpr is
--     recalculateMPRs, Neighbor/Aging is AgeOut and the getters.
--   Topology: internal/olsr/topology.go, Topology/Aliases the aliases of a node. Hna: internal/olsr/hna.go.
--   Molsr, Molsr/Mroutes: internal/olsr/molsr.go. Molsr/Asked is about the
--     entries that buildNewMFC makes, Molsr/Oifs about their outgoing interfaces.
--   Spf: buildAdjacencyList, diffAndPublishRoutes and GetRoutes of internal/olsr/spf.go. Spf/Heap is
--     priorityQueue with Go's container/heap, Spf/Dijkstra is runDijkstra, Spf/Routes is
--     CalculateRoutes and resolveNextHop, Spf/Routes/Lookup is GetNextHopForDest.
--   Config: internal/config/config.go, Config/Valid which configurations pass.
--   Daemon: the state of cmd/olsrd/daemon.go. Daemon/Send is sendHello, sendTC, sendHNA and
--     broadcastPacket, Daemon/Receive is processReceivedData with its handlers, shouldForwardMessage and
--     performAging, Daemon/Install is runSpf, findOutgoingInterface and the installation of routes,
--     Daemon/Run is the loop of run with what the other goroutines do, one input after another. Of its
--     other children Hello is about the exchange of HELLOs, Once about duplicates, Forward about the
--     path of a message, Interfaces about findOutgoingInterface, Sound about the states that the daemon
--     gets to, Survives about the inputs that stop it.
--   Zebra: the constants of internal/zebra. Zebra/Message is the messages of client.go, Zebra/Multicast
--     those of zapi_multicast.go, Zebra/Client is ZAPIClient. Zebra/Reader is an independent reader of the
--     messages, by which RoundTrip and Ipmr say what they contain; Backoff is about the waiting between
--     attempts to connect, Sync about an attempt that succeeds.
--   Api: the state and the requests of internal/api. Api/Guard is auditLog, rateLimit and jwtAuth of
--     server.go, Api/Handlers is handlers.go, Api/Serve the paths that Start registers, Api/Quiet
--     what the handlers leave alone, Api/Laws what a request may change and what is logged.
--   Mroute/Kernel: LinuxMulticastRouter of internal/mroute/mroute_linux.go. Mroute/Vifs is about the
--     numbers of the interfaces, Mroute/Ttls about the loop over the outgoing ones, Mroute/Entry about the
--     methods. Mroute/Arp: internal/mroute/arp.go. Mroute/Loops: NFTablesManager and NFQueueManager of
--     internal/mroute/loopprevention_linux.go, Mroute/Keys the keys of their routes, Mroute/Verdicts what
--     the rules and the hook decide on a packet, Mroute/Agree the two side by side.
--
-- How the code is rendered:
--   A method that takes the receiver's mutex for its whole body is a function from the manager, its
--   arguments and the time that time.Now() returns to the new manager and the events that it
--   publishes, in order. A map is an association list, and a range over it meets the entries in the
--   order of the list. A pointer in a map is held by that map only, so an update through it is an
--   update of the map. A slice that is indexed or cut out of range is `panic`, an error is `err`.
--   Bytes and uint16s are numbers, with what wraps written out; float64 is a parameter. The
--   handlers of the daemon return the new state, the events and the datagrams. They are run one after
--   another; a handler that reads the clock more than once takes one reading for each. What the system
--   answers (a write on a socket, a system call, a run of nft, the ARP table) is an argument, and what is
--   asked of it stands in the result, in order.
--
-- Bounds and fuel: the loop over the messages of a packet and the loop over the links of a HELLO run
-- on the length of the input, of which each round uses at least one byte. The greedy loop of
-- recalculateMPRs runs one round more than there are 2-hop neighbours, each round of which covers
-- one more of them. The loop of runDijkstra runs one round more than the graph has edges, each of which
-- is pushed once at most; resolveNextHop runs on the distance plus one, and the loops of the heap on its
-- size.
--
-- Not modelled: the interleaving of the goroutines inside a handler, timers, sockets, signals and
-- snapshots of cmd/olsrd; the delivery of events over channels; what internal/uroute asks of the kernel,
-- the vtysh command of internal/mroute, and the interfaces of the machine (internal/netlink), which are
-- parameters; the YAML parser, a parameter; the listening socket of the HTTP API, the JSON and the tokens,
-- which are parameters; the logs but for the audit log, and the metrics.
pub mod Base
pub mod Net
pub mod Packet
pub mod EventBus
pub mod Neighbor
pub mod Topology
pub mod Hna
pub mod Molsr
pub mod Spf
pub mod Config
pub mod Daemon
pub mod Api
pub mod Zebra
pub mod Mroute
