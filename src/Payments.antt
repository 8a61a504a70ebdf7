-- ===== src/Payments.antt =====
-- src/payments: the transaction records, orders, deposits, withdrawals and the checkout.
pub mod Transactions
pub mod Orders
pub mod Gateway
pub mod Refs
pub mod Deposit
pub mod Withdrawal
pub mod Checkout
