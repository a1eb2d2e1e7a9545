-- ===== src/Tokens.antt =====
-- Token accounts: the fees that a mint takes on a transfer.
pub mod TransferFees
