-- ===== src/Core.antt =====
-- neo/Core: numbers, hashes and their binary form, and the states of the ledger.
pub mod BigInteger
pub mod Io
pub mod UIntBase
pub mod MerkleTree
pub mod AccountState
pub mod SpentCoinState
pub mod UnspentCoinState
pub mod Blockchain
pub mod Transaction
mod Tests
