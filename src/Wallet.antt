-- ===== src/Wallet.antt =====
-- internal/wallet: keys at rest, derived accounts and the manager that the miner holds.
pub mod Crypto
pub mod Hd
pub mod Passphrase
pub mod Keystore
pub mod Manager
pub mod MnemonicStore
