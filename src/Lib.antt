-- ===== src/Lib.antt =====
-- Temporal workflows of the insurance management system: the lifecycle of a policy, in
-- policy-management-development/policy-management-development/policy-code/ (here `PM/`), the
-- revival of a lapsed policy in installments, in ims-revival-backend-development/ (here `REV/`), the
-- surrender, voluntary and forced, in
-- ims-surrender-backend-development/ims-surrender-backend-development/ (here `SUR/`), and the issue
-- of a policy, in ims-policyissue-backend-development/ (here `ISS/`).
--
-- The program's parts. `PM/workflows/policy_lifecycle_workflow.go` holds the workflow and its
-- handlers, `PM/workflows/signals.go` the state and the messages, `PM/core/domain/` the statuses,
-- request types and configuration keys, `PM/workflows/activities/policy_activities.go` the
-- parameters of the activities. The workflow receives a signal, checks it against the policy's
-- status and the financial lock, asks activities to write the database, starts child workflows for
-- downstream services, and takes their completions in as further signals. When a policy reaches a
-- terminal status, the workflow cools down and ends; when its history grows, it continues as new.
--
-- `REV/workflow/revival_workflow.go` holds the revival: the request is validated and indexed, passes
-- the desks of data entry, quality check and approval in a loop, waits for the first collection
-- against a timer of 60 days, and starts a workflow that monitors the other installments, which the
-- batch workflow signals. The structs of its activities are in `REV/workflow/activities.go`.
--
-- `SUR/temporal/workflows/approval_workflow.go` holds the approval of a surrender, with an automatic
-- approval of small amounts and an escalation for each deadline that passes, and
-- `SUR/temporal/workflows/forced_surrender_workflow.go` the monthly evaluation of unpaid policies in
-- batches and the monitor of their payment windows. `payment_workflow.go` beside them pays a surrender
-- out and records what becomes of the policy. `voluntary_surrender_workflow.go` is the child workflow
-- that the policy lifecycle starts for a surrender: it passes three desks, values and pays the
-- surrender, and asks for one signal back to policy management, by the contract of `pm_contract.go`;
-- where that activity fails, the error is only logged.
--
-- `ISS/workflows/policy_issuance_workflow.go` takes a proposal through validation, premium, quality
-- review, medical examination and approval to the policy number and the bond, and
-- `ISS/workflows/instant_issuance_workflow.go` does so at once for a customer verified by Aadhaar.
-- The statuses of a proposal and the transitions between them are in `ISS/core/domain/proposal.go`;
-- UpdateProposalStatus of `ISS/repo/postgres/proposal_repository.go` enforces them. An issued policy is
-- reported to policy management by `ISS/workflows/activities/pm_lifecycle_activities.go`, which starts
-- the policy lifecycle workflow, and again, where that has failed, by
-- `ISS/workflows/pm_reconciliation_workflow.go`.
--
-- Where each part is.
--   Base       Boolean tests on numbers, list lemmas, Go's maps as association lists, `int64`.
--   Stdlib     What the program uses of Go's library: strconv.Atoi and decimal texts (Decimal),
--              time.Duration and time.ParseDuration (Duration), Time.AddDate in years and months and
--              time.Date (Calendar).
--   Domain     PM/core/domain: Status, Request (types, outcomes, task queues), ConfigKey.
--   Lifecycle  PM/workflows:
--     State, Signal, Command   the structs of signals.go and of the activities' parameters
--     World                    the state, the commands issued so far and the timers
--     Transition               doTransition, computeDisplayStatus
--     Gate                     isStateEligible, requiresFinancialLock, preRouteStatus, and the query
--                              is-request-eligible
--     Timeouts, Routing        the configured periods and the tables of downstream workflows
--     Dispatch                 what the handlers of requests share: keys, refresh, child workflows
--     Request                  handleFinancialRequest, handleDeathNotification, handleNFRRequest
--     Pending                  the loop that takes a request out of the slice of pending ones
--     Completion               handleOperationCompleted, handleNFRCompleted and what they call
--     Payments, Compliance, Administration   the handlers of the other signals
--     Created                  handlePolicyCreated, the free-look timer, pruneProcessedSignals
--     Step                     the selector's callbacks: one signal, one call of a handler
--     Run                      the main loop, Continue-As-New, handleTerminalCooling
--   Revival    REV/workflow:
--     State, Signal, Case      the structs, the local variables and the activities' answers
--     Maturity                 validateMaturityDateConstraint
--     DataEntry, QualityCheck, Approval   the cases of the switch in WorkflowLoop
--     Loop, Collection, Workflow   InstallmentRevivalWorkflow: the loop, what follows it, the whole
--     Monitor, Batch           InstallmentMonitorWorkflow, BatchInstallmentProcessingWorkflow
--     FirstCollection          FirstCollectionWorkflow, ChequeMonitorWorkflow, SLATimerWorkflow
--   Surrender  SUR/temporal/workflows:
--     Approval                 ApprovalWorkflow
--     Forced                   ForcedSurrenderWorkflow, PaymentWindowMonitorWorkflow
--     Payment                  PaymentWorkflow
--     Contract                 pm_contract.go and the inputs of the activities
--     Desks                    the stages, calls and answers of SurrenderProcessingWorkflow
--     Processing               SurrenderProcessingWorkflow; Processing/Delivery joins it with
--                              Lifecycle: its input as PM sends it, its signal as PM reads it
--   PolicyIssue  ISS:
--     Proposal                 core/domain/proposal.go: the statuses and CanTransitionTo
--     Calls                    the proposal's row, the activities' inputs and the calls
--     Activities               UpdateProposalStatus and the activities that call it
--     Issuance, Workflow       PolicyIssuanceWorkflow: up to the quality review, and the whole
--     Instant                  InstantIssuanceWorkflow
--     Handover                 PMCreatedSignal, as the policy lifecycle workflow decodes it
--     Reconciliation           StartPMLifecycleActivity, PMSignalReconciliationWorkflow and their SQL
--   The modules below these hold the proofs, named for what they prove; Lifecycle/Tests,
--   Revival/Tests, Surrender/Tests and PolicyIssue/Tests hold a policy, its signals, and the theorems
--   at work on them.
--
-- How the code corresponds. A function that changes `*PolicyLifecycleState` takes a `World` and
-- returns one: the new state, and the commands that it issued, the newest first. A handler that
-- sets `reachedTerminal` returns it beside the world. Function names are the source's in snake
-- case; a status is a constructor for each constant, with `unset` for the empty string; a request
-- type or an outcome that is none of the constants is `unlisted`. The answers of the Temporal
-- service and of the activities are the record `Env`, whose fields are functions of how many
-- commands were issued before; nothing is assumed of them but what a theorem says. Handlers run
-- without interleaving: a timer's goroutine wakes up between two signals, which covers the order of
-- signals and timers, but not a timer that fires while a handler waits for an activity.
--
-- A revival is a `Case`: the state, the variables of the workflow, the signals that wait in its three
-- channels, and what it did so far, the newest first; a signal received is in that list, so that
-- time passes while the workflow waits. A round of WorkflowLoop ends as `continue`, blocked in
-- Receive, `return nil` or `break`. What the selector of the collection or of the monitor sees first
-- is given as an event. The pointer DataEntryDate into the signal's variable is a flag, and reading
-- it reads the variable.
--
-- A proposal is its row, with the answer of the workflow's query and what was done so far. An activity
-- that changes the row runs up to three times, as its retry policy says; each attempt may fail before
-- the row is written or after it, as the environment says. While the workflow of a proposal runs,
-- nobody else changes its status, and the row is the same for its number and its identifier.
--
-- Numbers. Times and durations are nanoseconds, a time counted from Go's zero time. The clock of a
-- workflow is in UTC, and so are dates from DATE columns; the date of a data entry in the revival is
-- what its timestamp writes, in the zone that it names. Money, a
-- `float64` in the source that is carried and compared but not added up, is whole hundredths.
-- `version` and `event_count` are the bit patterns of an `int64` and wrap around. The policy's age
-- in months is the integer part of a quotient that the source takes in floating point. A fraction
-- in a duration's text is exact where Go drops digits beyond 63 bits. The slice of pending requests
-- is an array with the number of elements kept, since the loop that compacts it in place still
-- holds a pointer into it.
--
-- Fuel. The loop over the terms of a duration's text runs on the text's length and one more: each
-- round consumes at least a unit's character. WorkflowLoop runs on a unit for each round: a round
-- takes a signal, but for the step from data entry to quality check, so more than two units for each
-- signal are enough, unless it reaches the status DATA_ENTRY_PENDING, where it spins. The loop over the
-- batches of reminders runs on the number of policies: a batch takes at least one. All other loops
-- are structural, on the list of inputs or of events that arrive.
--
-- Not modelled: the SQL of the activities and repositories but for the change of a proposal's status
-- and the rows that the reconciliation reads and writes, the HTTP handlers, the batch scan workflow,
-- the document verification and policy update workflows of the surrender service, and the calculations
-- of the policy issue service. The division of two float64 amounts, `int(a / b)`, is a parameter of
-- the revival.
pub mod Base
pub mod Stdlib
pub mod Domain
pub mod Lifecycle
pub mod Revival
pub mod Surrender
pub mod PolicyIssue
