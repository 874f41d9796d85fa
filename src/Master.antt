-- ===== src/Master.antt =====
-- master/persistent_kv: the key-value storage of the master and the page that it is kept on.
pub mod Page
pub mod Storage
pub mod Balancer
pub mod Tests
