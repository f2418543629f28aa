-- ===== src/LoadBalance.antt =====
-- loadbalance/: the pickers. A connection (balancer.SubConn), an address (resolver.Address) and a
-- pick's information (balancer.PickInfo) are types of grpc, and so parameters.
pub mod Filter
pub mod RoundRobin
pub mod WeightRoundRobin
pub mod LeastActive
pub mod Fastest
pub mod Random
pub mod Hash
mod Examples
