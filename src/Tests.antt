-- ===== src/Tests.antt =====
-- Runs of the model on concrete data, and the theorems applied to them.
mod Sample
mod LedgerRuns
mod TransferRuns
mod IdempotencyRuns
mod OutboxRuns
mod FundingRuns
mod RouteRuns
mod AuthRuns
mod HttpRuns
mod OperationsRuns
mod WebRuns
mod MigrationRuns
mod PaymentRuns
mod ArchitectureRuns
