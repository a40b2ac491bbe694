-- ===== src/Lib.antt =====
-- NLSR, the Named Data Link State Routing protocol daemon (src/). Routers describe their
-- neighbours, coordinates and name prefixes in LSAs. Each daemon keeps the LSAs in its LSDB,
-- computes a routing table from the adjacency LSAs (or coordinates), maps name prefixes to the
-- routers that advertise them, and gives next hops to the FIB, which commands NFD.
--
-- Which file models which part:
--   Prelude           names, interfaces for equality, order and doubles, lists, std::set,
--                     std::map
--   Adjacency         src/adjacent.*, src/adjacency-list.*: a neighbour, the list of neighbours
--   Lsa               src/lsa/*: the three kinds of LSA; Lsa/Update their update functions
--   Sequencing        src/sequencing-manager.*: sequence numbers and their file
--   Lsdb              src/lsdb.*: installation and removal; Lsdb/Own the building of own LSAs with
--                     hold, deferred publication, refresh and expiration; Lsdb/Fetch fetched LSAs,
--                     Lsdb/Retry the fetching and its retries
--   Route/NextHop     src/route/nexthop.hpp; Route/NexthopList src/route/nexthop-list.hpp
--   Route/Fib         src/route/fib.*
--   Route/NameMap     src/route/name-map.*
--   Route/RoutingTable     src/route/routing-table.*
--   Route/NamePrefixTable  src/route/name-prefix-table*, src/route/routing-table-pool-entry.hpp
--   Route/Hyperbolic  src/route/routing-calculator-hyperbolic.cpp
--   Route/LinkState   src/route/routing-calculator-link-state.cpp: Matrix, Dijkstra, Table
--   Hello             src/hello-protocol.*: Hello Interests, flow tokens, the mobility sweep;
--                     Hello/Events puts its handlers in any order
--   Observer          src/topology-change-observer.*: which changes of adjacencies are confirmed
--   Daemon            src/nlsr.cpp: face events, the list of faces, registrations; Daemon/NewPath the
--                     announcement of new paths, Daemon/Certs the strategies of certificates
--   Update            src/name-prefix-list.*, src/update/*: the advertised names, the commands that
--                     change them and the file that saves them
--   Wire              wireEncode and wireDecode of src/adjacent.cpp, src/lsa/*,
--                     src/route/nexthop.cpp and src/route/routing-table-entry.cpp
--   Corridor          src/corridor.*: availability of LSAs along the faces that serve a prefix;
--                     Corridor/Hooks puts its handlers in any order
--   Configuration     src/conf-file-processor.cpp, src/conf-parameter.*: the sections of the
--                     configuration file, their ranges and defaults
--   Examples          concrete runs
--
-- Conventions. A member function is a function from the object's state to its new state, under the
-- source's name in snake case. What goes to the outside (commands to NFD, sync, signals, timers) is
-- a log in the state, and the answer of the outside is a call of the handler. Names, face URIs and
-- doubles are types with an interface: a test for equality, a strict total order, and for doubles an
-- order-embedding into the numbers and an addition that is monotone, as rounding leaves it. Numbers
-- of 64 and 32 bits are natural numbers with the wrap-around written out where the code increments
-- them.
--
-- Fuel. The loop of getNextHop, which follows parents, takes fuel; one more than the number of
-- routers is enough. The recursion of RoutingTable::calculate takes fuel for the passes that
-- its subscribers ask for; two are enough where no pass asks for one. Dijkstra's loop is a
-- recursion on the number of routers. Runs in which every answer is a failure (Daemon/Fetch,
-- Route/Fib/Retries) take fuel, and what is said of them holds for all fuel from a bound on. The
-- loop over the angles of a configuration takes what is left of its text as fuel.
--
-- Handlers. Hello, Observer and Daemon hold what they share as one value (the configuration with the
-- neighbours, the LSDB, the routing table), and each handler takes it and gives the next one. The
-- daemon calls the handlers of Hello, Hello those of the LSDB and of the routing table; the observer
-- reads the LSDB. Where a signal's subscribers call back, the signal is a log entry and what they do
-- is a later step.
--
-- The corridor reads the LSDB and the neighbours, which are arguments of each of its steps. What it
-- asks the LSDB to fetch is an entry of its log.
--
-- Not modelled: the status datasets, Interests and Data, segments, the functions of <cmath> and NaN,
-- the property tree that a configuration file is parsed into, sync protocols, certificates, the set-up
-- of the daemon, and status output.
pub mod Prelude
pub mod Adjacency
pub mod Lsa
pub mod Sequencing
pub mod Lsdb
pub mod Route
pub mod Hello
pub mod Observer
pub mod Daemon
pub mod Update
pub mod Wire
pub mod Corridor
pub mod Configuration
pub mod Examples
