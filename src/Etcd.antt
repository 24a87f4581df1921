-- ===== src/Etcd.antt =====
-- The operator's own etcd namespace (src/dsa_operator/etcd/write.py).
pub mod Backend
pub mod Writer
