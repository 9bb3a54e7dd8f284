-- ===== src/Api.antt =====
-- safe-crypto-lib: the operations that are templates over a `CryptoProvider`, as functions of a
-- provider. The children are named for the headers that they model.
pub mod Result
pub mod Octets
pub mod Provider
pub mod Random
pub mod Digests
pub mod Mac
pub mod Ecc
pub mod Ecdh
pub mod Aead
pub mod Asymmetric
pub mod Kdf
pub mod Kem
pub mod Dsa
pub mod KeyBalance
pub mod Service
pub mod Success
