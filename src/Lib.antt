-- ===== src/Lib.antt =====
-- smoking-data runs data assets: YAML definitions of sources, curations, joins and snapshots, which a
-- runner turns into plans of tasks over Parquet files. This library models the code that decides: what
-- runs, in which order, in how many tasks, and what a failure stops. The parts are these.
--
-- A schedule directory is ticked by `tick_schedules` (src/smoking_data/runtime/scheduler.py). It finds
-- the due occurrence of each schedule, claims it in the state database, runs the schedule's targets
-- and records how the occurrence ended. A target is an asset or a chain. A chain is run by
-- `run_asset_chain` (src/smoking_data/runtime/asset_chain.py), in the order that `load_asset_chain`
-- gives the assets; an asset behind a failed one is blocked, and an unchanged one is reused. An asset's
-- run is divided into tasks by src/smoking_data/core/cost_model.py, and
-- src/smoking_data/core/physical_plan.py chooses among the plans of tasks and admits the workers. Before
-- that the asset's plan of operations is rewritten by src/smoking_data/core/optimizer.py, and the files
-- that the tasks write become the dataset by src/smoking_data/runtime/transactions.py.
--
-- Prelude.antt and its children hold what the parts share: Boolean tests and lists over the native
-- numbers, names as sets, sorting with its laws, the lexicographic order and a result type.
--
-- Core/CostModel.antt models the whole of cost_model.py; `pack_group_costs` is the loop of its source
-- with the state of its local variables as a record. Its children are the proofs.
--
-- Core/PhysicalPlan.antt has the records of physical_plan.py, the size of row groups, the builders and
-- the admission of workers; Core/PhysicalPlan/Cost.antt has `estimate_plan_cost` and Choice.antt
-- `choose_physical_plan`. Sizes that the source takes to be at least zero are natural numbers. The hash
-- of a plan is a parameter. `reconcile_task_memory` compares floating-point counters and is left out.
--
-- Core/Operations.antt is the table of operation properties of src/smoking_data/core/operations.py, and
-- Core/ExecutionPlan.antt the barriers and roles of src/smoking_data/core/execution_plan.py.
--
-- Core/Optimizer.antt has the rewrite rules of src/smoking_data/core/optimizer.py on two operations side
-- by side, and Core/Optimizer/Loop.antt `_validate_rewrite` and the search of `optimize_logical_plan`; a
-- round of `iterate` is one iteration of its loop, so that `max_iterations` is the fuel. What a plan
-- makes of a table is Core/Optimizer/Engine.antt, over a record of the engine's behaviour: predicates,
-- expressions and projections on one row, casts on one value, and window calculations and any other
-- operation on the table. What a rule takes
-- for granted of an operation's declared columns is Core/Optimizer/Sound.antt. Rows, Filters, Calcs and Casts
-- are about single rules, Meaning, Rounds and Refinement about the search, and Alike, Regular and
-- Accepted about plans for which no rule raises and no rewrite is rejected.
--
-- Core/PipelineDag.antt models the checks that `normalize_pipeline_document` of
-- src/smoking_data/core/pipeline_dag.py makes of a document's operations, behind the expansion of the
-- phases and before the lowering: aliases, ports, artifacts, `_stable_topological_sort` and `_ancestors`.
-- The search for ancestors takes at most as many steps as the graph has edges, those of the save
-- operation counted twice, which is its fuel. Of an error the code is kept.
--
-- Graph.antt is the topological sort that the chain and the pipeline use, over any way to queue the assets that become
-- ready; Graph/Queues.antt has the queues. A round is one pass of the `while` loop and places one asset.
-- The bound is one more than the number of assets, the last round being the one that finds nothing
-- ready.
--
-- Planners/Cohorts.antt and Planners/Cohorts/Plan.antt model `build_planning_cohorts` of
-- src/smoking_data/planners/dataset_shard.py. Its two loops, over the files of a shard and over the
-- slices, are one function, `split_runs`. The digests and the order of strings are parameters; a size
-- that is missing is 0. Planners/Dirty.antt models src/smoking_data/planners/dirty.py.
--
-- Runtime/AssetChain.antt models the graph checks of `load_asset_chain` and its order;
-- Runtime/AssetChain/Run.antt models `_execute_asset` and `_can_reuse`, and Chain.antt the loop of
-- `run_asset_chain`. The host's files, hashes and asset runners are the record `ChainHost`, over a world
-- that an execution changes; a fingerprint or a receipt can raise. Reading YAML, the log and the metadata file are not modelled.
--
-- Runtime/Transactions.antt models `DatasetTransaction` and `recover_orphan_transactions` of
-- src/smoking_data/runtime/transactions.py: the directories of one dataset on the disk, and for a commit
-- the list of the states of the disk that it passes through. Which calls of the file system raise is the
-- record `Faults`, and `AbortFaults` for an abort; a call that raises changes nothing, but for a copy that
-- fails halfway. The manifest that a commit writes into the staging directory is the parameter `seal`
-- and the check of a copy's hashes the parameter `verify`.
--
-- Runtime/ProbeRanges.antt models `_merge_ranges` of src/smoking_data/runtime/parquet_probe/ranges.py,
-- with the order of Python's tuples as a parameter.
--
-- Runtime/Scheduler has the parts of scheduler.py: Cron.antt the cron expressions (Python's `int` is a
-- parameter), Store.antt the definitions and the rows of the state database, Load.antt
-- `load_schedule_spec` on the value that the YAML file holds (Runtime/Yaml.antt), Due.antt
-- `_due_occurrence` (the `while` loop has one round for each minute from its start to the current one,
-- so the fuel is their number), Claim.antt `_claim_occurrence` as one step on the rows, Targets.antt
-- `_run_targets_sequentially`, and Tick.antt `tick_schedules`. A scheduled time is a number of minutes
-- and a start a number of microseconds. The lock that keeps two ticks apart is an argument of the tick;
-- the clock, the time zones, the digest, the executor and the writes to the database that raise are the
-- record `TickHost`. Reading the files of a directory and the dispatch of a target to its asset are not
-- modelled.
--
-- Not modelled: the assets and table operators (src/smoking_data/assets and src/smoking_data/ops), which
-- call Polars, PyArrow and the native engine; src/spotfire_expr_normalizer, the reading and migration of
-- YAML, the task runner with its process pools, telemetry, previews, and the command line. They are input
-- and output or calls of libraries, except for the expression normalizer and the lowering of a document's
-- phases, which are left for later.
pub mod Prelude
pub mod Core
pub mod Graph
pub mod Planners
pub mod Runtime
