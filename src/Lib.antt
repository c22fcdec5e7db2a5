-- ===== src/Lib.antt =====
-- The money services of a personal finance tracker, a NestJS backend over Prisma and PostgreSQL.
--
-- A tenant keeps monthly plans, settings, a ledger of fixed deposits in packets, a ledger of
-- investments with sales, savings goals, scratch pads, card transactions with adjustments, and
-- baselines by half year, and imports card transactions from mail. Saving a plan writes the plan,
-- checks the investments and syncs the deposit ledger in one transaction; the dashboard reads all
-- ledgers.
--
-- The parts, by file (paths from the repository's root):
--   Fd/Packet, Fd/Table, Fd/Service: src/modules/fd-ledger/fd-packet.ts and fd-ledger.service.ts
--     (normalizePacket, coerceFdPacket, summarize, listTransactions, syncContribution, breakPackets,
--     undoBreak). Fd/Sums, Loop, Break, Cover, Fifo, Enough, Undo, Sync hold the proofs.
--   Investments/Service: src/modules/investments/investments.service.ts (summarize, sell, undoSale,
--     lockAndValidatePlanWrite, lockAndValidateOpeningBalance); Balance, Undo, Opening hold the proofs.
--   Plans/Split, Plans/Period, Plans/Payments, Plans/Service: src/modules/monthly-plans
--     (monthly-split.calculator.ts; resolvePeriodMonths, the readers of the JSON columns and upsert of
--     monthly-plans.service.ts) with src/infrastructure/repositories/prisma-monthly-plan.repository.ts;
--     Columns, Upsert, Solvency, Ledger, Stored hold the proofs.
--   Goals/Service, Goals/Listing: src/modules/goals/goals.service.ts with
--     src/infrastructure/repositories/prisma-goal.repository.ts; Break, Undo, Rows hold the proofs.
--   Dashboard/Service: getDashboardSummary of monthly-plans.service.ts; Corpus, Moves hold the proofs.
--   ScratchPads/Service: src/modules/scratch-pads/scratch-pads.service.ts; create and update, which run
--     in no transaction, are checks and a write each. Apart, Sheets, Races, Rows hold the proofs.
--   Adjustments/Effective, Adjustments/Service: src/modules/transactions/domain/effective-amount.ts and
--     services/transaction-adjustment.service.ts; Amounts, Stored hold the proofs.
--   Baselines/FiscalHalf, Baselines/Service: src/modules/settings/domain/fiscal-half.ts and, of
--     src/modules/settings/settings.service.ts, createBaseline, updateBaseline and
--     getBaselineForVersion; Lock, Once, Version hold the proofs.
--   Imports/Tables, Outside: src/modules/import-jobs/types/import-contracts.ts and the tables of the
--     imports, import-auth-error.util.ts, and the record Outside of all that the import calls.
--   Imports/Failures, Lock: import-failure.service.ts and import-lock.service.ts of
--     src/modules/import-jobs/services; Rows, Unowned hold proofs.
--   Imports/Folders, Parse, Process, Bank, Retry, Rebase, Runs, Run: services/cc-txn-import.service.ts
--     from the mail folder to the summary of a run (discoverFolders, processMessage, runImportForBank,
--     retryFailures, ignoreFailures, rebaseWatermark, runImport); Chunks, Keeps, Step, Drained, Complete,
--     Again, Counts, DryRun, Written, Endings hold the proofs.
--   Imports/Jobs, Status, World: import-jobs.service.ts (startCcTxnImport, executeCcTxnImportRun and
--     their like for statements, the snapshots and the status); World has the runs that interleave as
--     a step relation. Settled, Exclusion hold the proofs.
--   CardCycle/Dates, Tables, Spend, Summary:
--     src/modules/transactions/services/card-cycle-summary.service.ts (getSummary and all that it
--     computes); Window, Totals hold the proofs.
--   Settings/Payments, Sources, Slates, Service, Update: the rest of settings.service.ts
--     (normalizeGoalPayments, normalizeStatementSources, normalizePlanDefaultSlates, getPftSettings,
--     deductStash, updatePftSettings) with prisma-pft-setting.repository.ts; deductStash, which runs in no
--     transaction, is a read and a write. Rows, Stash, Lists, Solvency hold the proofs.
--   Tables: the tables of prisma/schema.prisma that the services share; Errors: one constructor for
--     each exception; Prelude: lists, integers, JSON values, and service calls; Samples and the Tests
--     modules (in Imports Sample, Tests and RunTests): concrete runs.
--
-- How the state is modelled. A table is a list of rows, in the order of insertion; a unique-key upsert
-- writes the first row of the key or adds one; an orderBy is a sort; findFirst is the first match. A
-- service call takes the tables and gives a result or an exception, and the tables after it;
-- prisma.$transaction gives back the old tables after an exception. The ledgers, plans and settings
-- take the advisory lock of the tenant in their transactions, which so run one after the other, and
-- such a call is one step; where no lock is taken and a property depends on it (deductStash, the
-- scratch pads), the reads and the write are steps of their own, and the other calls are taken as one
-- step. acquire of the import lock is one step: its insert fails on the primary key whatever came
-- before it. Random ids are arguments (a stream `fresh` where a call draws several), and a theorem
-- that needs them to be new says so. The clock is an argument. In the imports an id that the database
-- gives is the counter next_id of the tables, and a run that is left behind by its start is a function
-- of the tables at the time it runs.
--
-- Numbers. An amount is a whole count of hundredths of a rupee, so sums are exact; binary floating
-- point is not modelled. Number(v) of a text or an array is kept beside the value, so a statement for
-- all values covers every reading. A JSON number is a count of hundredths, NaN or an infinity. Integers
-- of the database are not bounded, since the code does no arithmetic near their bounds. toUpperCase acts
-- on the ASCII letters, and a calendar year is at least 100, where new Date(y, m, 1) does not shift it.
--
-- What the imports call and this library does not model (Gmail, the language model, the parsers of
-- mail texts, refusals of the database, the settings of the process) is a value of Outside, the same
-- for all calls of one run. Theorems that need it say so by name: KeepsId, that a parser keeps the id
-- of the mail; IsGmailId, that an id is not empty and has no white space at its ends.
--
-- Loops are recursion on the list or on the count that the source's loop runs through, and end. The
-- digits of a number are written on fuel one above the number, which no number of digits passes, and
-- batches are cut on fuel of as many as there are messages, each batch taking one at least.
--
-- Days. A local day of the server's zone has 24 hours, as in Asia/Kolkata. Where an instant is only
-- compared with midnights, its local day stands for it.
--
-- Not modelled: HTTP, request validation by decorators, JWT and Google sign-in with its refresh
-- sessions, Gmail, Gemini, PDF and mail parsers, the import of statements itself (its runs and locks
-- are), the encryption of card columns, the services that only pass one query on, and log lines.
-- Request fields of null, which the decorators admit for optional numbers, are not modelled.
pub mod Prelude
pub mod Errors
pub mod Fd
pub mod Tables
pub mod Investments
pub mod Plans
pub mod Goals
pub mod ScratchPads
pub mod Adjustments
pub mod Dashboard
pub mod Baselines
pub mod Imports
pub mod CardCycle
pub mod Settings
pub mod Samples
