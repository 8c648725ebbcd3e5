-- ===== src/Lib.antt =====
-- A model of the core of IANUA-Broker, the scanner `mcpscan` of MCP configurations, with the
-- properties that make it correct.
--
-- The program's parts and their files. A finding (`Domain`, src/mcpscan/domain.py) is graded by
-- `Scoring` (src/mcpscan/scoring.py): points by severity, bands of letters, a cap for a server whose
-- inspection is incomplete, the worst letter of a report, and a letter for each dimension.
--
-- `Lan` is the assessment of a local network (src/mcpscan/lan/). `Lan.Manifest` parses and validates
-- the authorization (manifest.py), `Lan.Policy` the allow-list of public targets (policy.py),
-- `Lan.Budgets` holds the ceilings of an invoker (budgets.py), `Lan.Scope` resolves targets to hosts
-- (scope.py), `Lan.Verify` checks the signature (verify.py), `Lan.Sanitize` makes remote text inert
-- (sanitize.py), `Lan.Audit` is the record of a run (audit.py), and `Lan.Runner` composes them as
-- `run_lan` does (runner.py). What `run_lan` keeps in local variables is the record `LoopState`; the
-- clock, the abort switch and the prober are the functions of `World`, and each probe and each pause
-- is an `Event` of the result, the last first. `Lan.Platform` holds what comes from the standard
-- library: networks are numbers with their arithmetic, and the reading of TOML, of dates and of the
-- texts of addresses are fields of the record `Platform`. Seconds are counted in microseconds.
--
-- `Drift` compares two snapshots (src/mcpscan/drift/). `Drift.Model` is model.py, `Drift.Facts` says
-- what is compared of a fact, `Drift.Classify` gives the direction and the cause of a change and
-- `Drift.Diff` makes the report (all three diff.py); `Drift.Staleness` is staleness.py.
-- `Drift.Snapshot` (snapshot.py) makes a snapshot of a report and its digest, and `Drift.Baseline`
-- (baseline.py) writes it as a baseline and reads it back, with a signature or without. `Json` has
-- JSON values and, as fields of a record, what the code uses of Python's json and hashlib.
--
-- `Trust` profiles servers (src/mcpscan/trust/). `Trust.Model` is model.py; of analyze.py,
-- `Trust.Factors` are the five factors, `Trust.Relationships` the dangerous combinations,
-- `Trust.Profiles` the profiles and the report, and `Trust.Shared` the credentials that several
-- servers share. The checks of credentials and of pinning are fields of `ServerChecks`.
-- `Acceptance` (src/mcpscan/acceptance.py) applies a ledger of accepted risks to a report and to a
-- drift report; a date is the number of its day. `Acceptance.Ledger` parses and reads ledgers.
--
-- `Graph` is the graph of what an attacker can reach (src/mcpscan/graph/). `Graph.Model` is model.py;
-- of paths.py, `Graph.Chain` describes one chain and `Graph.Search` is the search with the grade; of
-- build.py, `Graph.Build.Facts` are the target catalog and the facts read of a profile,
-- `Graph.Build.Draft` the nodes and edges from profiles and assets, `Graph.Build.Credentials` those
-- from credentials and `Graph.Build.Assemble` the whole. `Graph.Search.Spec` says what a chain is
-- without the search. `Inventory.Model` (src/mcpscan/inventory/model.py) has the assets,
-- and `Inventory.Classify` (classify.py) says what a socket is.
--
-- `Checks.Pinning` (src/mcpscan/checks/pinning.py and versions.py) finds package coordinates and
-- floating versions, and `Checks.Exposure` (exposure.py and config_health.py) reports listeners and
-- unreadable configurations. `Adapters.Jsonc` (src/mcpscan/adapters/jsonc.py) takes comments and
-- trailing commas out of a configuration. `Checks.ToolScope` (src/mcpscan/checks/tool_scope.py) and
-- `Discovery.Reach` (src/mcpscan/discovery/sockets.py) hold the predicates on tools and addresses that
-- `Trust` uses.
--
-- `Prelude` holds what all share: Boolean tests, equality and order as instance arguments, lists,
-- dictionaries in insertion order, sorting, and texts by code point. A Python exception that the
-- code lets through is a constructor of the result type (`raised`, `value_error`).
--
-- Bounds and fuel. `strip_rounds` runs on the length of its text, and `decimal` on one round more
-- than its number, which has no more digits than that; the search descends at most MAX_HOPS edges, as
-- in the code; every other loop is structural. Subtraction stops at 0, as `max(0, ...)` does in the
-- code.
--
-- Not modelled: the command line and the engine, the host adapters, the rendering of reports, and the
-- enumeration of sockets and processes, which are input and output; and the import of other tools'
-- baselines, the schedules, the data pack and the other checks. Left out of what is modelled are the
-- scope id of an IPv6 network and a signers file that is not UTF-8 (verify.py raises there), and
-- overrides of budgets are whole numbers, of seconds in microseconds.
pub mod Prelude
pub mod Domain
pub mod Scoring
pub mod Lan
pub mod Json
pub mod Drift
pub mod Checks
pub mod Discovery
pub mod Trust
pub mod Acceptance
pub mod Graph
pub mod Inventory
pub mod Adapters
