-- ===== src/Examples.antt =====
-- The claims at concrete values, with names, face URIs and costs that are numbers.
pub mod Values
pub mod LinkStateRun
pub mod FibRun
pub mod RouteRun
pub mod LsdbRun
pub mod HelloRun
pub mod ObserverRun
pub mod DaemonRun
pub mod UpdateRun
pub mod WireRun
pub mod CorridorRun
pub mod ConfigurationRun
pub mod HyperbolicRun
