-- ===== src/Lease/Cluster/Invariant.antt =====
-- What holds wherever the agents stand, as long as none of them finds the lease expired.
pub mod Agent
pub mod Renewal
