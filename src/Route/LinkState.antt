-- ===== src/Route/LinkState.antt =====
-- route/routing-calculator-link-state.cpp: the adjacency matrix, Dijkstra's algorithm, and the
-- next hops that are put into the routing table.
pub mod Matrix
pub mod Dijkstra
pub mod Table
