-- ===== src/Crypto.antt =====
-- Package crypto: the byte-wise cipher feedback stream of crypto/conn.go, and the key exchange and
-- the key derivation of crypto/keyExchange.go.
pub mod Cfb
pub mod Stream
pub mod KeyExchange
pub mod Prf
mod Examples
