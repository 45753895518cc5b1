-- ===== src/Lib.antt =====
-- Verification of the ajocloud backend: a savings platform whose services move members' money
-- through one double-entry ledger.
--
-- The parts and how they interact. Every movement of money is a posting of the ledger
-- (src/modules/ledger): the wallet service (src/modules/wallets) checks the member's transaction PIN
-- (src/modules/auth) and posts between two wallets or reserves a withdrawal; the settlement service
-- (src/modules/payments) credits a deposit that the payment provider has confirmed, less the fee that
-- a versioned rule (src/modules/fees) assessed; the Ajo service (src/modules/ajo-groups) collects
-- contributions into a group's pool account and pays a cycle out of it; the bill service
-- (src/modules/bill-payments) reserves the money of a bill and, when the provider answers, settles,
-- releases or reverses it; Food Ajo (src/modules/food-ajo) has the rules of programmes, packages,
-- orders and distributions, and holds what is paid in an escrow account; the verification stages
-- (src/modules/kyc) gate what a member may do; a webhook's payload (src/modules/webhooks) is read into
-- the amount and the identity of the event.
--
-- Files. Prelude and its children hold what the others share: tests on numbers, lists, signed
-- integers (the source's `bigint`), texts as lists of code points, results and database transactions,
-- tables, reachability.
--   Ledger.antt: ledger.service.ts (`post`, `postWithin`, `accountBalanceWithin`, `reverse`) and
--     domain/ledger-invariants.ts (`assertBalancedPosting`); the proofs stand in Ledger/.
--   Ledger/Accounts.antt: rows of accounts and wallets, and the lookup of a wallet's account.
--   Wallets.antt: domain/wallet-policy.ts and wallet-movements.service.ts (`send`, `withdraw`,
--     `withIdempotencyRace`).
--   Auth.antt: domain/transaction-pin-policy.ts and transaction-pin.service.ts.
--   Payments.antt: domain/payment-policy.ts and payment-settlement.service.ts (`settleSuccessful`,
--     `settleFailed`).
--   Fees.antt: domain/fee-rule.ts.
--   AjoGroups.antt, AjoGroups/Contribution.antt, AjoGroups/Payout.antt:
--     domain/ajo-settlement-policy.ts and ajo-settlement.service.ts (`payContribution`,
--     `executePayout`).
--   BillPayments.antt and, below it, Creation, Outcome and Reconciliation:
--     bill-payments.service.ts (the reservation of `create`; `applyProviderResult`, `applyReversal`,
--     `markUncertain`, `reconcile`).
--   FoodAjo.antt: domain/food-ajo-policy.ts. FoodAjo/Payment.antt: food-subscription.payment-target.ts.
--   Kyc.antt: domain/kyc-stage-policy.ts. Webhooks.antt: domain/monnify-events.ts.
-- A module Examples beside each part runs it on concrete data.
--
-- How the code is modelled. A service method is a function from the tables that it reads and writes
-- to its outcome and the tables after it; an exception is a `Failure` with its message, and inside
-- `transactions.serializable` it undoes the writes of the body. Identifiers that the database or
-- `randomUUID` makes, and the clock, are arguments. What other requests commit between the reads and
-- the writes of a method outside one transaction is an argument, a function on the tables, in
-- `with_idempotency_race`, `settle_successful`, `settle_failed` and `verify_pin_during`. The other
-- methods are modelled as running alone: `verify_pin` (which `send` and `withdraw` call), `set_pin`,
-- `reconcile`, and the hold of a refused payout in `execute_payout`. Enums are data types with the
-- source's constructors. Money is ℤ, since `bigint` has no bound; instants are milliseconds in ℕ. A
-- unique key of a table is a lookup by that key; of the tables of ledger transactions and of transfers
-- the widths of the columns and the other unique columns are modelled too, and a row that breaks them
-- throws. Loops are recursions on their lists, so no fuel is needed.
--
-- Not modelled. Controllers, input decorators and module wiring; queries for display; delivery of
-- notifications; the remaining services. Argon2 is a parameter, and the answer of the bill provider is
-- an argument. Of a row only the columns that the code reads or that a result depends on are kept;
-- metadata of audit entries is left out. Texts are compared as code points, and case folding is that
-- of ASCII. `BigInt(text)` is modelled on texts of digits, and throws on any other. The widths and the
-- secondary unique columns of the other tables are left out, and so are foreign keys and the conflicts
-- that make a serializable transaction fail.
pub mod Prelude
pub mod AjoGroups
pub mod Auth
pub mod BillPayments
pub mod Fees
pub mod FoodAjo
pub mod Kyc
pub mod Ledger
pub mod Payments
pub mod Wallets
pub mod Webhooks
