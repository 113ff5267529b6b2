-- ===== src/Net.antt =====
-- src/net: the configuration protocol over UDP.
pub mod UdpCfg
