-- ===== src/Lib.antt =====
-- SynKoala runs synthetic usability studies: a study has a graph of analyzed screens, a task and an
-- audience of synthetic participants; a run simulates each participant on the graph, records what
-- it did as observations, and is then aggregated. This library models the backend under app/.
--
-- The parts, and how they interact:
--
-- Prelude (helpers over the native naturals, options, lists, association lists, integers, results).
--
-- Platform: what the program takes from Python's floats and from `random` and `str`. It is a record
-- of operations, a parameter of every definition that computes with scores, so that no rounding is
-- invented; `FloatLaws` names the facts of comparison that a theorem needs. UUIDs are naturals.
--
-- Graph (app/agents/types.py): screens, elements, transitions, the task, the participant's traits.
--
-- Participant (app/agents/providers/participant_model.py): the contexts and decisions, the scores
-- (Participant.Scores), `HeuristicParticipantModel` (Participant.Heuristic), the three baselines
-- and `get_participant_model` (Participant.Baselines). A model maps a context to scored candidates;
-- the engine does the sampling. Participant.Choices proves what every model offers.
--
-- Simulation (app/agents/graphs/simulation_graph.py): the state of one participant's run is the
-- record `SimulationState`; the generator of the dependencies is threaded beside it.
-- Simulation.Sampling has the draws, Simulation.Conditions the success conditions and milestones,
-- Simulation.Nodes and Simulation.Actions one function for each node (`orient`, `perceive`,
-- `attend`, `act_on_intended`, `scan_exhausted`, `interpret`, `select_action`, `execute_action`,
-- `update_state`, `check_task`), and Simulation.Flow the edges of `_build_graph`, `recursion_limit`
-- and `run_simulation`. A node that subscripts a missing screen or reads an attribute of `None`
-- returns a `NodeError`. LangGraph's executor is not in the repository: `Executor` is its `ainvoke`
-- as a parameter, with the laws that it runs the node, follows the edge, stops at END and raises at
-- the recursion limit; Samples.Fixed gives a concrete one. Simulation.Measure and
-- Simulation.Progress count the supersteps that are left, so the fuel of a run is the recursion
-- limit that `run_simulation` itself computes, and Simulation.Termination shows that it is enough.
-- Simulation.Invariant is the induction rule over the nodes that the invariants use: a property of
-- states at each node that every node keeps holds of what `run_simulation` returns.
-- Simulation.EventLog, Simulation.FinishLine, Simulation.NoFinishLine, Simulation.Backtracks and
-- Simulation.Steps apply it. Simulation.Chosen is about `select_action` with the models above.
--
-- Database (app/db/models.py): the rows of studies, runs, participant runs, jobs and observations,
-- each table a list of rows in the order of created_at, with the clock and the next UUID.
-- Database.Session is a transaction: a function from the database to the database and a result, in
-- which what was written before an exception is still there; Database.Rows is `UPDATE ... WHERE` on
-- a table.
--
-- Runs (app/services/simulation_run_service.py), Studies (app/services/study_service.py; `Catalog`
-- is what the runs read of tasks, audiences and stimuli, a parameter), Jobs
-- (app/services/job_service.py and app/workers/runner.py, whose handlers are a parameter),
-- Jobs.Participant (app/workers/jobs/simulate_participant.py, which runs the simulation above),
-- Launch (app/usecases/simulations.py). Runs.Completion, Jobs.Finalize, Jobs.Completes,
-- Launch.Cancel and Launch.Create prove what they do. Jobs.Pool is the workers over one queue as a
-- step relation, with claims, processed jobs and requests in any order; Jobs.Queue and
-- Jobs.Pool.Requests keep its invariant, Jobs.Exclusive concludes, and Jobs.Lawful fills the law
-- that the pool asks of handlers. Jobs.GivesUp is about the last failed attempt, Launch.Single
-- about the runs of one study, Studies.Lifecycle about the status of a study. A transaction is one
-- step: the interleaving of statements of two transactions is not modelled, nor are the messages of
-- errors, ORM caching, polling and logging.
--
-- Analytics (app/services/analytics_engine.py) is the breadth-first search of the baseline, on
-- fuel for one turn of its loop for each transition and one for the start; Analytics.Baseline
-- shows that it is enough, and Analytics.Shortest and Analytics.Levels that the queue is in order
-- of distance. Analytics.Metrics, Analytics.Elements and Analytics.Rows are the metrics, with a
-- dictionary of sets as a list of lists without repetitions, Analytics.Segments the segments, and
-- Analytics.Aggregate the job of app/workers/jobs/aggregate_run.py over the database and its two
-- tables, whose rows have no keys of their own here: a row of insight_evidence is kept as the run
-- of the row that its foreign key refers to, and a delete raises where there is such a row.
-- `mean` of Python's integers and floats and the difference of two times are parameters.
-- Analytics.Groups, Analytics.Tracks, Analytics.DeadEnds, Analytics.Scans, Analytics.Settled and
-- Analytics.Rates count participants among participants, and Analytics.Replaced is about the
-- tables.
--
-- Stimuli (app/services/stimulus_service.py) is the service over `Assets`: the stimuli, the screens
-- with their elements, and the transitions. Stimuli.Nulls is `_strip_null_bytes` on JSON,
-- Stimuli.Service the upload (`Media` is the bucket, the image library, `str` and `str.lower`), and
-- Stimuli.Screens what an analysis or an import writes. Stimuli.Keys and Stimuli.Distinct are about
-- the keys of screens; the loop over suffixes has fuel for each key of the study and one more.
-- `get_screen_graph` builds the graph that a run is given.
--
-- Vision (app/workers/jobs/analyze_stimulus.py): the roles of screens and the collapse of
-- duplicates; Vision.Edges the resolution of the reported transitions and the reachable screens;
-- Vision.Analyze the job itself. The record `Vision` is the provider of
-- app/agents/providers/vision_provider.py, which may answer anything or raise, and a different
-- answer at each attempt. Its loops are on fuel too: `root_of` for each role and one more,
-- `reach_from` for each transition and one more. Vision.Roles, Vision.Roots, Vision.Backed,
-- Vision.Enqueue and Vision.Reach prove the parts; Vision.Closed, Vision.Drawn and Vision.Sound
-- carry them through the transaction of the job, and Vision.Keeps concludes.
--
-- Vision.Runnable joins Vision and Simulation: a run on the graph that an analysis left.
--
-- Uploads (app/usecases/stimulus.py) is the use case over both the database and the assets; a
-- transaction that raises is rolled back by its request. Uploads.Tidy and Uploads.Requested prove
-- what uploads and requests for analysis do.
--
-- Insights (app/services/insight_engine.py, app/agents/providers/insight_provider.py) checks what
-- a language model concludes: Insights.Engine has `validate` and `compute_evidence_strength`, and
-- Insights.Report the job of app/workers/jobs/generate_insights.py over its two tables.
-- `Rounding` is Python's `round` and `==` on floats. A dictionary built from rows is read as the
-- last row with the key. Insights.Supported, Insights.Strength, Insights.Rows and Insights.Delta
-- prove what they do.
--
-- Samples has concrete platforms, graphs and databases, and Examples applies each theorem to them.
--
-- Not modelled: the validation engine with its benchmark and the results service (statistics and
-- queries over the rows that are modelled here, on floats); the audience engine and the sampling
-- of personas (a language model's answers and random draws); the Figma import and journey capture
-- (an external service and a browser); HTTP routes, schemas, settings, storage and authentication
-- (glue and I/O); scripts, migrations and the web and mobile clients.
pub mod Prelude
pub mod Platform
pub mod Graph
pub mod Participant
pub mod Simulation
pub mod Database
pub mod Runs
pub mod Jobs
pub mod Studies
pub mod Launch
pub mod Analytics
pub mod Stimuli
pub mod Vision
pub mod Insights
pub mod Uploads
pub mod Samples
pub mod Examples
