-- ===== src/Lib.antt =====
-- claude-crypto: a verification library for the C++ cryptography library safe-crypto-lib and for
-- parts of its ARM provider.
--
-- The program has two layers. safe-crypto-lib/ offers typed operations (random bytes, digests,
-- MACs, AEAD, RSA, ECDSA, ECDH, post-quantum schemes, key derivation, two authenticated key
-- exchanges), each a template `*_impl` over a provider that satisfies the concept
-- `CryptoProvider`; an operation initialises the provider, imports or creates a key, holds it in a
-- `PsaKeyHandle` that destroys it at the end of the scope, makes one or more calls, and turns
-- failures into a `CryptoErrorCode`. providers/ holds the providers; providers/arm_asm/ implements
-- the primitives itself, among them the big integers of RSA and the store of symmetric keys.
--
-- Base: names and lemmas shared by all modules (lists over native numbers, bit operations,
--   congruence without subtraction).
-- BigInt (providers/arm_asm/rsa_bigint.hpp): `BigInt<NW>` is a list of NW limbs, `value` the number
--   that it stands for. Every uint64_t and __uint128_t operation reduces modulo 2^64 or 2^128. The
--   loops over limbs recur on the lists, those with a count on the count, so no fuel is needed.
--   BigInt.Mont has Montgomery multiplication, BigInt.Power the conversions and the exponentiation.
--   BigInt.Crt has the recombination of the two halves of a private-key operation, and BigInt.Bytes
--   the byte strings and the two operations on them.
-- RsaDer (providers/arm_asm/rsa_der.hpp): the DER encodings of RSA keys. A cursor into a buffer is
--   the list of the bytes that remain, so that a read past the end cannot be written down; a reader
--   that returns false is `none`. A writer returns the bytes that it leaves in the buffer and
--   `*out_len`. The loop over a long length recurs on its bytes.
-- Api (safe-crypto-lib/): Api.Provider is the concept as a record of functions on the provider's
--   state, with `with_key_handle` for the scope of a `PsaKeyHandle`; Api.Result has the error
--   codes and the monad of a state and an expected value. Api.Random, Digests, Mac, Ecc, Ecdh,
--   Aead, Asymmetric and Kdf are named for their headers, Api.Kem models pqc_kem.hpp, Api.Dsa
--   pqc_dsa.hpp. Api.KeyBalance is the interface for the bookkeeping of keys and its rules,
--   Api.Success the interface for what successful calls mean, Api.Service the one for a provider in
--   working order.
-- KeyStore (providers/arm_asm/key_store.hpp): the 16 slots for symmetric keys; the mutex makes each
--   operation one step.
-- PqcKeyStore (providers/arm_asm/pqc_key_store.hpp): the 16 slots for keys of ML-KEM and ML-DSA. The
--   variant, a byte beside the type in the source, stands with the type. Base.Slots has the search
--   for a free slot.
-- Sigma, SigmaI (safe-crypto-lib/sigma.hpp, sigma_i.hpp): the two key exchanges, built from Api;
--   SigmaI.Bundle is the wire format of the encrypted identities. Sigma.Checks and Sigma.Vouching have
--   what the last steps of the two exchanges share.
-- Hash (providers/arm_asm/hmac.hpp): the incremental contexts of the SHA-2 family and HMAC over
--   them, for a compression function that is a parameter. The loop of `update` recurs on fuel; each
--   round takes a byte at least, so that the number of bytes is enough.
-- Hkdf (providers/arm_asm/hkdf.hpp): the state machine of the key derivation over the model of
--   HMAC-SHA-384. A null operation is left out. The loop of `hkdf_expand` has fuel 255, the largest
--   number of blocks that the bound on the output allows. An info of at most 256 bytes keeps a
--   message inside its buffer; `hkdf_input_bytes` tests that, `hkdf_expand` itself does not, and the
--   model of it does not hold for a longer one, for which the source can write past the buffer.
-- RsaPadding (providers/arm_asm/rsa_oaep.hpp, rsa_pss.hpp): MGF1, OAEP and PSS over SHA-384 as a function
--   on byte strings; the buffers of 512 bytes bound the modulus and the seed of MGF1, whose model does
--   not hold for a longer one. The loop of MGF1 has as much fuel as bytes of output, of which each
--   round writes at least one.
-- Rsa (providers/arm_asm/rsa.hpp): the store of RSA keys, and encryption, decryption, signing and
--   verification with encoded keys, built from RsaDer, RsaPadding and BigInt.Bytes. The random seed
--   or salt is an argument. KeyStore.Ids has what the stores share whose ids start at a base.
--   Hash.OneShot (providers/arm_asm/sha512.hpp) is the hash that they use.
-- Base64 (safe-crypto-cli/cli_base64.hpp): the encoder and the decoder of the command line; their
--   loops recur on the groups.
-- Tests: a toy provider that keeps all the laws, and runs.
--
-- Parameters: a provider is an argument wherever it is used. KeyAccounting, CryptoLaws and
-- CryptoService state what the operations rely on; they are hypotheses on the provider, and Tests.Toy
-- and Tests.Service instantiate them. CryptoService asks of a key only the calls that it was made
-- for, within the bounds of HKDF and of the key slots, as providers/arm_asm/arm_asm_backend.hpp
-- answers them; the random bytes to come are part of a provider's state.
-- A template parameter (a curve, a hash, a key size) is an argument.
--
-- Not modelled: error messages; the wrappers that only log and call `*_impl`; the scrubbing of
-- buffers; failures to allocate; outputs of a provider that are shorter than the source copies
-- from them (a list is cut where the source would read past the end). The providers openssl,
-- psa_mbedtls, liboqs and ia_asm, and the vector-intrinsic primitives of arm_asm, are not part of
-- the model. The RSA key generation, the elliptic curves, and the rest of the command line are not
-- either.
pub mod Base
pub mod BigInt
pub mod RsaDer
pub mod RsaPadding
pub mod Rsa
pub mod Api
pub mod KeyStore
pub mod PqcKeyStore
pub mod Sigma
pub mod SigmaI
pub mod Hash
pub mod Hkdf
pub mod Base64
pub mod Tests
