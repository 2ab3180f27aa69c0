-- ===== src/Lib.antt =====
-- PlatformOps: the deterministic core of the gateway, as functions by clauses over explicit state.
-- A request names a resource scope; the registry resolves it, access and governance decide on it,
-- the bindings route it to one cloud container, and the result is sealed into a context. A plan
-- over that context is reviewed by someone else and executed behind a gate that checks all of it
-- again. Around this stand memberships, onboarding, provider connections, capability ceilings,
-- browser sessions, the registration of users and their sessions, and the chat: the harness takes a
-- text, the intake gives it a route, and the draft workflow turns it into a request on a scope.
--
-- Files and the code that they model:
--   Base: dictionaries, lists, results, equality tests and text.
--   Registry: gateway/resource_scope_registry.py (register_reviewed, resolve_active).
--   Membership: gateway/organization_membership.py (save).
--   Access: gateway/resource_scope_access.py (authorize, replace, active_bindings).
--   Governance: gateway/resource_scope_governance.py (evaluate).
--   Binding: gateway/resource_scope_bindings.py (register_reviewed, set_state, resolve).
--   Context: gateway/resolved_resource_scope.py (seal, requires_fresh_resolution).
--   Provision: workflows/provision/preflight.py (evaluate, here preflight), gateway/provision_plan.py,
--     workflows/provision/approval_graph.py (review) and gateway/provision_execution.py (execute).
--   Policy: gateway/policy/ceiling.py, with Capability of gateway/auth/schemas.py and Scope of
--     gateway/schemas.py.
--   Provider: gateway/provider_connections.py; Attachment and Bootstrap are its services.
--   Session: gateway/browser_sessions.py; Keys holds keys and cookies, Token the issuer and the
--     authenticator.
--   Onboarding: gateway/organization_onboarding.py. `activated` is the checks of the service's
--     `activate`, `store_activate` the method of the store; Activation, Histories and Routable
--     hold the proofs.
--   Provision.Topology: workflows/provision/topology.py (validate_topology); Queue and Sorting are
--     the loop that orders the units, Edges, Checks and Inputs the other checks.
--   Registration: gateway/auth/registration.py; Attempts, Limiter and Service are its attempt store,
--     rate limiter and service; Discovery is gateway/auth/domain_discovery.py.
--   Identity: gateway/auth/sessions.py, gateway/auth/claims.py (Tokens), gateway/auth/grants.py
--     (Groups) and gateway/browser_runtime_actor.py (Runtime).
--   Intake: gateway/schemas.py, gateway/dispatcher.py and workflows/intake; Hints and Targets are
--     parse_scope_hint and resolve_scope of gateway/scope.py.
--   Draft: workflows/provision/schemas.py, nodes.py and graph.py (prepare_provision_request).
--   Harness: harness/core.py; Runs holds start_run and resume_clarification, Success, Models,
--     Rounds, Resumes, Answering and Histories the proofs.
--   Chat: gateway/chat_workflow_context.py; Guests is gateway/guest_chat_router.py, Commands
--     and Browsers are gateway/command_router.py.
--   Examples: runs on concrete data.
--
-- A method that raises returns `err`; a method that writes returns the new state. A dict is an
-- association list in insertion order. Instants are natural numbers, in browser sessions counted
-- in microseconds. The locks of the in-memory stores are not modelled: each call is one step.
-- Random ids, hashes, HMAC, JWT, Unicode tables, executors, adapters and authorizers are
-- parameters, as are mail delivery and the language model, whose calls are functions of the text
-- that answer or raise. The loop that orders a topology runs on fuel, one round for each unit, which
-- `order_units` grants and the proofs in Sorting show to be enough; every other recursion is
-- structural.
--
-- Not modelled: database repositories, transports, the command line, the graph library around
-- the workflows, loading of configuration, the HTTP calls of the login client, and the rendering
-- of events.
pub mod Base
pub mod Registry
pub mod Membership
pub mod Access
pub mod Governance
pub mod Binding
pub mod Context
pub mod Provision
pub mod Policy
pub mod Provider
pub mod Session
pub mod Onboarding
pub mod Registration
pub mod Identity
pub mod Intake
pub mod Draft
pub mod Harness
pub mod Chat
pub mod Examples
