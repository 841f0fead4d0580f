-- ===== src/Etcd.antt =====
-- The etcd client: src/atframe/etcdcli.
pub mod Frame
pub mod KeyRange
pub mod Keepalive
pub mod Cluster
pub mod Discovery
pub mod Watch
pub mod Tests
