-- ===== src/Tests.antt =====
-- Concrete runs: a provider whose keys are byte strings on a stack, and the theorems applied to it
-- and to small numbers.
mod PqcStore
mod Padding
mod RsaKeys
mod Derivation
mod Toy
mod Arithmetic
mod Exchange
mod Service
mod Encrypted
mod Operations
mod Formats
mod Der
mod Rsa
mod Text
mod Hashing
mod Store
