-- ===== src/Ledger.antt =====
-- `ResearchQueryLedgerService` of src/transit_scholar/layer3/ledger/service.py: its helpers, its
-- errors (layer3/ledger/errors.py), and the records that each operation reads. The operations that
-- write are in `Ledger.Queries`, `Ledger.Evidence`, `Ledger.Claims` and `Ledger.Links`.
pub mod Queries
pub mod Evidence
pub mod Claims
pub mod Links
pub mod Lookup
pub mod Reads
