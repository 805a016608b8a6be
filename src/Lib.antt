-- ===== src/Lib.antt =====
-- BusinessOS: the protected kernel (platform/src/businessos), the policy foundation
-- (foundations/policy/src/businessos_policy) and other foundations.
--
-- The kernel hosts modules. A module declares a manifest; the kernel orders the manifests by their
-- dependencies, activates each module under a generation of the contribution gate, and lets it
-- register values (feature flags, job handlers) under that generation. A value is seen and admitted
-- only while its generation is active. The policy foundation decides who may act: it collects the
-- roles of a subject from assignments and delegations, and matches their permissions.
--
-- Activation.antt is platform/src/businessos/activation.py. `ContributionGate` is the state; each
-- method is a function of the state that returns its result and the new state. `admit` is split into
-- `enter` and `leave`, `close_and_drain` into `begin_close` and `finish_close` around its wait, so
-- that Activation/System.antt can interleave the operations of all tasks as a step relation. Its
-- system holds the gate, the admissions that are inside, and the calls of `close_and_drain` that
-- wait, each with whether the event has been set since it began. A generation may be published again
-- at any time, as the gate allows.
--
-- Errors.antt is errors.py: the exceptions by kind, as results. Registry.antt is registry.py,
-- Registry/Features.antt is features.py, and Registry/Jobs.antt is jobs.py with the `Authorizer` of
-- security.py and the trusted context of context.py; the policy evaluator and the handlers are
-- parameters.
--
-- Di.antt and below are platform/src/businessos/di.py: Di/Registrations.antt is `register` and
-- `_registration_for_resolution`; Di/Waits.antt is the wait graph, `_add_wait_chain`, `_add_wait`,
-- `_remove_wait` and `_wait_path`, whose search has one unit of fuel more than there are sources,
-- since each call but the last ones visits a new source; the end of the fuel is an answer apart from
-- "no path". Di/Tasks.antt interleaves the chains of all
-- tasks. The owners of resources and their tasks are left out.
--
-- Modules/Manifest.antt is modules/manifest.py with its validators. Modules/Packaging.antt holds
-- what the program takes from the package `packaging`, a parameter. Modules/Ordering.antt, Modules/Upgrade.antt and Modules/Lifecycle.antt are
-- modules/registry.py: `_ordered_manifests`, `UpgradeCoordinator.plan`, and `_enable`, `_disable`,
-- `_retire`, `_enable_all` and `disable_all` of `LifecycleManager`. A lifecycle operation takes a
-- record of what each call that it makes answers, none or an exception, so every failure of every
-- call is covered; the locks make it one step. The rounds of `_ordered_manifests` run on as much fuel
-- as there are manifests, since each round but the last takes one out.
--
-- Policy/Models.antt holds the records of models.py that decisions read; an identifier or an instant
-- is a number. Policy/Delegation.antt is `has_effective_role_source` of delegation_authority.py, on
-- fuel: 18 units serve, since a call behind 17 visited principals ends. Policy/Roles.antt and
-- Policy/Evaluation.antt are `authorize` and `_record_access_allowed` of contracts.py, with
-- Policy/Decisions.antt for the other decisions of that service, where `str.upper`, by which
-- currencies are compared, is an argument. A climb to the parents of a role has two units of fuel
-- more than there are roles, since each step visits a new role.
-- Policy/Conditions.antt is the two condition predicates there; JSON values, their equality and the
-- validated parser are a parameter.
--
-- Tenants is the tenant foundation (foundations/tenant/src/businessos_tenant): Tenants/Periods.antt
-- is the effective periods of contracts.py, a temporal value being a date, a naive or an aware
-- datetime with its number; Tenants/Tables.antt holds the tables of models.py as dictionaries by
-- their keys; Tenants/Hooks.antt is `TenantLifecycleHooks`; Tenants/Lifecycle.antt is the handlers of
-- module.py, each a function of the tables that it reads and writes, atomic because its unit of work
-- is. Tenants/Steps.antt lets the handlers run in any order.
--
-- Organization is the organization foundation
-- (foundations/organization/src/businessos_organization): Organization/Tables.antt holds the tables of
-- models.py; Organization/Scopes.antt is `_require_effective_row`, `_scope_lineage` and the functions
-- around them in module.py, where a climb to the parents has two units of fuel more than the table has
-- rows; Organization/Delegation.antt is `_validate_delegation_path`, which reads the tables once before
-- and once after its locks, so that the model takes two states; the answers of the policy, tenant and
-- identity foundations are an argument, and the clock is read once. Organization/Structure.antt is the
-- handlers that create scopes, without the codes of scopes, and Organization/Grants.antt those that
-- delegate and that revoke; the handlers for site types, locations, relationships and new assignments
-- are left out.
--
-- Sets are lists read by membership; a dict is a list of pairs (Prelude/Dict.antt). Messages, details
-- and reasons of errors and decisions are not modelled. SQL, brokers, telemetry, ASGI and the web
-- application are input and output and are left out, as are the other foundations.
pub mod Prelude
pub mod Di
pub mod Errors
pub mod Activation
pub mod Registry
pub mod Modules
pub mod Policy
pub mod Tenants
pub mod Organization
pub mod Tests
