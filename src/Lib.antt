-- ===== src/Lib.antt =====
-- The quota-aware routing utility of this repository: it polls the quota of model providers, keeps
-- what it observed, and edits the configuration of Polytoken so that work goes to providers that
-- have quota left. This library models its decisions; files, processes and the network are left
-- out.
--
-- Parts, and how they interact:
--   * Quota (internal/quota/types.go): normalized observations. `remaining`, `effective_remaining`,
--     `next_quota_reset_at` and `class` are the methods of the same names; the reset-credit merges
--     are MergeResetCreditObservation and MergeCodexUsageSummary.
--     Quota.Evidence (internal/quota/evidence.go) is the registry of contract evidence: `register`,
--     `status_contract`, `support_from_evidence` and `validate_release`.
--   * State (internal/state/types.go, machine.go, ownership.go): the durable observed state. Each
--     operation takes a state and returns the next one with an optional error: State.Machine has
--     SetProvider, ClearProvider, SetManualDisabled and the others, State.Ownership the ownership
--     records.
--   * Policy (internal/policy/types.go, load.go): the desired policy, ResolveModel, ParseModelRef.
--   * Schedule and Routing (internal/routing/policy.go, signal_gate.go): off-peak windows, the
--     eligibility of a provider, its use-it-or-lose-it signal, and the verdicts of the signal gate;
--     Routing.Rank is Rank with its signal clusters and shared ranks.
--   * Reconcile (internal/reconcile/reconcile.go): Modes combines a policy and a state into the
--     mode of a mapping (MappingMode), Survivors filters and orders a chain (resolveSurvivors,
--     applyRoutingOverlay, EffectiveOrder), Plans makes the edits of a target (Build).
--   * Gate (internal/service/provider_gate.go, signal_gate.go): the provider gate of a provider-only
--     policy. Pool is the pool rule (signalPoolRule), Decide what a pass does with one provider,
--     Plans the plan of a pass (planProviderGate) with its edits and its two ownership maps, which
--     takes the modes of Reconcile.Modes and the verdicts of Routing. Rounds runs published and
--     refused passes over one provider, against an abstract gate that remembers one bit.
--   * Ranking (internal/service/ranking.go): ComputeRanking, which builds the input of Rank from a
--     policy and a state and gives the coordinator and the overlay of Reconcile their ranks.
--   * History (internal/state/history.go): the records of reconcile passes, AppendHistory, and
--     boundHistory, which aggregates and drops the oldest records until the encoding fits.
--   * Publish (internal/publish/journal.go, helpers.go, publisher.go): the journal of a publication
--     and, in Publish.Durable, its file (toJournalFile, fromJournalFile); advanceState, which
--     rebuilds the state after an interruption, with the ownership records that Gate decided on;
--     and Publish.Recover, Recover with its choice of rolling forward, restoring or refusing.
--   * Selection (internal/selection/policy.go, selector.go): Candidates classifies a model
--     reference (classify), Selection chooses among the classified candidates (Select), Wire
--     checks the decoded groups of a tier (tierFromWire).
--   Tests holds a concrete policy, state and type of floats, and the theorems applied to them.
--
-- Conventions. A Go map is an association list with one entry for each key; a pointer is an
-- Option. An instant is a natural number of nanoseconds since Go's zero time, and a duration is an
-- integer, whose subtraction saturates as time.Time.Sub does. A float64 is a value of any type with
-- the operations and the order laws of `Floats`: nothing is assumed of rounding, and NaN stays
-- possible. The rounding of an elapsed time to days wraps at 2 ^ 63 as on int64. Loops
-- are structural recursion on the list that Go ranges over; the loop over the groups of a tier runs
-- over the number of groups. The loop of boundHistory takes fuel, two rounds for each record and
-- one more: a round aggregates a full record or drops one.
--
-- Parameters for code that is not in the repository: the time zone database (`load_location`,
-- and the wall clock of a `Location`), the formatting of a float (`format`, `format_signed`) and
-- of a date (`format_day`), and the length of a JSON encoding (`encoded`). The hashes of a
-- journal have any type, with their hexadecimal coding (`hex_encode`, `hex_decode`) and their
-- comparison (`eq_hash`); the JSON text of a journal is taken to be read as written. The record
-- `Files` holds what the file system answers a recovery: hashes, restores, the save of the state
-- and the removal of the journal.
--
-- Parameters for code of the repository that is not modelled: the sanitizer of error texts
-- (`sanitize`, of internal/quota/types.go), the reading of a provider's `enabled` key from a
-- YAML document (`read`, of internal/service/provider_gate.go), and the path checks of a journal
-- (`paths_ok`, validateJournalPaths of internal/publish/publisher.go, which follow symbolic
-- links).
--
-- Not modelled: the coordinator of internal/service around the gate and the ranking, the events
-- of a gate pass, the adapters of internal/quota, the store, the event timeline and the field
-- validation of internal/state, the preparation and renaming of files in a publication (Apply),
-- the document editors, notices, the command line, and the scripts. They are I/O, or are not yet
-- part of this library.
pub mod Prelude
pub mod Clock
pub mod Floats
pub mod Quota
pub mod State
pub mod Schedule
pub mod Policy
pub mod Reconcile
pub mod Selection
pub mod Routing
pub mod Gate
pub mod History
pub mod Ranking
pub mod Publish
pub mod Tests
