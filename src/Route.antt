-- ===== src/Route.antt =====
-- src/route: next hops, the FIB, and the calculation of routes.
pub mod NextHop
pub mod NexthopList
pub mod Fib
pub mod NameMap
pub mod RoutingTable
pub mod NamePrefixTable
pub mod LinkState
pub mod Hyperbolic
