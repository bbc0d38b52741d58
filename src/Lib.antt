-- ===== src/Lib.antt =====
-- The core of the ontology and data platform, modelled and verified. The program is the Python
-- package of backend/src/lingshu. Its ontology service keeps versioned entity definitions in a
-- graph database: users edit drafts under a lock, submit them to staging, and a commit publishes
-- what is staged under a new snapshot; a rollback goes back to an earlier one. The data layer
-- queries instances by a cached schema, adds virtual fields and masks what is sensitive, replays an
-- edit log over base rows and locks single rows; the function layer decides by safety levels whether
-- an execution asks for a confirmation, records executions, and writes what an action computes into
-- the edit log; it also keeps global functions and workflows, runs them, and lists all as a catalog.
-- The settings keep users, their memberships in tenants and their sessions; the copilot keeps its
-- own sessions and the language models of a tenant.
--
-- Which file models which part, by paths below backend/src/lingshu:
--   Prelude, Prelude/*: lists, dicts in insertion order, dynamic values, text, equality, counting.
--   Infra/Errors: infra/errors.py. Infra/Exec: handlers that raise AppError; the state comes back
--     beside an error, with what was written before the raise. When a request raises, get_session
--     (infra/database.py) rolls back the rows that the request has not committed. The models of
--     execute_function, update_context and update_member_role do so too; elsewhere what was written
--     before a raise is committed by the code, matches no row, or is kept in Redis or the graph.
--   Infra/Redis, Infra/Table, Ontology/Graph: Redis, SQL tables and Neo4j as parameters, each a
--     record of operations with a record IsLawful of what the commands are documented to do.
--   Infra/Falls: rules for what an action does not raise, or brings to zero.
--   Ontology/Repository: ontology/repository/graph_repo.py, a method as a function of the graph
--     state; Ontology/Repository/Promotion: its two bulk operations; Repository/Resume: a promotion
--     that is started again. Ontology/Retry: ontology/retry.py.
--   Ontology/Snapshots, Snapshots/FieldDiff: ontology/repository/snapshot_repo.py.
--   Ontology/Validators/*: ontology/validators/*.py.
--   Ontology/Lock, Ontology/Serialize, Ontology/Service/*: ontology/service.py. Service/Drafts has
--     the requests for drafts, with _create_entity, _update_entity and _delete_entity for all entity
--     types; Service/Types those of single types; Service/Publish the commit and the rollback.
--     Ontology/World has the servers, their states and the context of a request.
--   Data/RowLock: data/writeback/lock.py. Data/Merge: data/pipeline/merge.py. Data/EditLog:
--     data/writeback/fdb_client.py, and write_editlog of data/service.py.
--   Data/Masking, Data/Virtual, Data/Schema, Data/Query: masking.py, virtual_eval.py,
--     schema_loader.py and query_engine.py of data/pipeline. Data/Queries: the queries of instances
--     of data/service.py, which compose them. Schema/Age has runs of reads and invalidations.
--   Function/Safety: function/safety/enforcer.py, and compute_safety_level of
--     function/workflows/engine.py.
--   Function/Executions: function/models.py, function/repository/execution_repo.py and
--     function/audit/logger.py. Function/Actions: function/actions/loader.py. Function/Params:
--     function/actions/param_resolver.py. Function/NativeCrud:
--     function/actions/engines/native_crud.py. Function/Registry: function/globals/registry.py and
--     function/repository/function_repo.py.
--   Function/Services, Service, Service/*: function/service.py. Services is the interface to the
--     tables, the ontology service, the data service and the engines that run outside of the program;
--     Service has execute_action, its children the batches, the background task, and the
--     confirmation; Service/Confirm/Calls has runs of any calls, Confirm/Settled and
--     Confirm/Expiry what they cannot do to an execution that was settled, or that is too late.
--   Function/Workflow: topological_sort of function/workflows/engine.py, with Degrees, Layered,
--     Layers and Acyclic; Workflow/Conditions: evaluate_condition; Workflow/Execution: the class
--     WorkflowEngine. Workflow/Service: function/workflows/service.py and repository.py.
--   Function/Globals: function/globals/executor.py and builtins.py. Function/Capabilities:
--     execute_function, list_capabilities and get_overview of function/service.py.
--   Setting/Accounts: setting/models.py, setting/repository/*.py and the roles of users of
--     setting/authz/enforcer.py. Setting/Sessions, Setting/Members, Setting/Users and
--     Setting/Passwords: the requests of setting/service.py about sessions, members, users and
--     passwords, and create_tenant, with setting/auth/password.py; Sessions/Calls and Passwords/Emails
--     have runs of requests.
--     The policy engine, hashing and checking passwords, digests and access tokens are parameters.
--   Copilot/Sessions: copilot/sessions/manager.py and repository.py. Copilot/Models:
--     copilot/infra/models.py. Sessions/Deleted and Models/Default have runs of requests.
--   Tests/*: servers in memory that meet the laws, and runs at small inputs.
--
-- Names follow the source; commit_staging, create_entity and the like are the methods of that name,
-- without a leading underscore, and rollback is rollback_to_snapshot of the service. A world holds
-- the states of the servers. The tenant, the user, the clock and the next uuid of a request are its
-- context. Requests follow one another: a request runs to its end before the next begins.
--
-- The rows of a table have no order to rely on, so what is said of a store is said by counts of the
-- rows that pass a test.
--
-- Fuel: the search of check_interface_cycle recurses on fuel; more fuel than the rids that the graph
-- can name is enough for an answer. The SCAN loop of on_schema_published takes as many rounds as
-- the server gives; what is said of it holds for every number of rounds. The loop of
-- topological_sort has one round more than there are nodes, which is proved to be enough.
--
-- An exception that is no AppError is answered as an internal error, so it is common_internal_error
-- in the model; the loop over a batch does not catch it. An action's configuration has the shape
-- that its engine documents, with none for a missing key. Times are in seconds.
--
-- Left out: failures of a server in the middle of a request, but for the promotion, paging and
-- search, HTTP routes and shapes of responses, logging, the copilot but for its sessions and
-- models, changing tenants, custom roles, sign-on, audit logs and the decoding of access tokens,
-- connections and branches of data, and the engines for scripts, queries and webhooks. Connectors,
-- the executor of a workflow's nodes, the digest of a primary key, json.dumps and json.loads, the
-- parser of Python expressions and Python's arithmetic, comparisons and conversions are
-- parameters. The nodes of a workflow's layer run at once in the program; each reads the values
-- before the layer, so the model runs them in turn. Numbers in dynamic values are natural numbers,
-- so negative numbers and fractions are left. Fields of an entity other than those that decide its
-- identity and version are one dict; a request's updates write into that dict alone.
pub mod Prelude
pub mod Infra
pub mod Ontology
pub mod Copilot
pub mod Data
pub mod Function
pub mod Setting
pub mod Tests
