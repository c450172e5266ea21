-- ===== src/Inspect.antt =====
-- src/sni_extractor.cpp: the extractors that read a name out of a payload.
pub mod Memory
pub mod Tls
pub mod Http
pub mod Dns
pub mod Quic
