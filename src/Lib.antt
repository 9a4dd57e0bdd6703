-- ===== src/Lib.antt =====
-- A verification library for the server of flow-ai, a back end for agencies with many organizations
-- (tenants) and with AI agents that work for them.
--
-- The parts and how they interact. A request is authenticated (src/modules/auth/strategies/
-- jwt.strategy.ts), then passes the global RolesGuard and, on routes of an organization, TenantGuard
-- (src/common/guards), which reads the membership through a Redis cache (src/common/cache) that the
-- member operations (src/modules/organizations) invalidate. Behind the guards the services keep
-- tables of rows that belong to organizations. The agents run in a bounded loop (src/modules/agents)
-- under the rails of src/modules/agent-settings; they write e-mails, which src/modules/orchestrator
-- sends, and content, which src/modules/content publishes; their model is one of two vendors behind a
-- failover (src/modules/content/providers).
--
-- Files, each with its children:
--   Common         shared names, Boolean tests and lists over the native numbers, results
--   Database       a table of the Prisma client as a parameter with laws; Database.Rows is an
--                  instance, Database.Ownership the rows of other organizations
--   Redis          the Redis client as a parameter with laws; Redis.Entries is an instance
--   TtlCache       src/common/utils/ttl-cache.util.ts
--   Tenancy        src/common/cache/tenant-membership.cache.ts, src/common/guards, the member
--                  operations of src/modules/organizations/organizations.service.ts and the
--                  membership test of src/gateway/events.gateway.ts
--   Session        validate of src/modules/auth/strategies/jwt.strategy.ts and the order of the
--                  guards in src/app.module.ts
--   AgentSettings  src/modules/agent-settings/agent-settings.service.ts
--   AgentExecutor  runAgent, generate, parseToolCall and executeTool of
--                  src/modules/agents/agent-executor.service.ts
--   Emails         the tool draft_email of that file, and approveEmail, cancelEmail and
--                  sendQueuedEmails of src/modules/orchestrator/orchestrator.service.ts
--   Directives     createDirective, processAgentTasks and handleInboundEmail of
--                  src/modules/orchestrator/orchestrator.service.ts
--   Content        the calendar and the publishing of src/modules/content/content.service.ts
--   Failover       src/modules/content/providers/failover.provider.ts and ai-provider.factory.ts
--   Tasks          src/modules/tasks/tasks.service.ts
--   Leads          src/modules/leads/leads.service.ts
--   Clients        src/modules/clients/clients.service.ts
--   TimeTracking   src/modules/time-tracking/time-tracking.service.ts
--   RefreshTokens  the refresh tokens of src/modules/auth/auth.service.ts
--   Auth           the other methods of src/modules/auth/auth.service.ts: Auth.Lockout, Auth.Login,
--                  Auth.Links, Auth.TwoFactor and Auth.OAuth; Auth.Counters is the interface of the
--                  counters of Redis
--   Scraper        src/modules/content/scraper.service.ts
--   Gateway        src/gateway/events.gateway.ts
--   Channels       src/modules/channels/channels.service.ts; Channels.Secrets is
--                  src/common/utils/crypto.util.ts
--   Projects       src/modules/projects/projects.service.ts
--   Hr             the attendance and the leaves of src/modules/hr/hr.module.ts
--   Billing        src/modules/payments/payments.module.ts and the changes of invoices of
--                  src/modules/invoices/invoices.service.ts
-- A definition is named like the method it models, in lower case with underscores, and takes the
-- state it reads (a table, the settings, the cache) and returns the state after it; a thrown
-- HttpException is the `failed` of Common.Results. Modules named Tests hold instances of the theorems
-- at concrete data.
--
-- Conventions and bounds. Ids, addresses, texts and other strings that the code only compares are
-- natural numbers; times are numbers of milliseconds. Amounts of money in invoices and payments
-- are of an arbitrary type with JavaScript's operations, so nothing depends on how those round. A
-- row keeps the columns that the modelled operations decide on or change, and leaves out those
-- that are only copied. What awaits between two queries of one request is sequential except where
-- a definition says that others act on the world meanwhile (the executor). The executor's loop is
-- a recursion on the steps that are left, which is the source's own bound maxAgentStepsPerRun, so
-- no fuel is added; all other loops run over lists.
--
-- Not modelled: HTTP, validation and response shapes, logging, mail and file transport, the
-- delivery of socket events, the text of prompts, listings with their pages, and the front end.
-- Third-party clients are parameters, as is JavaScript's arithmetic on amounts: the database,
-- Redis, the AI vendors, the channels, the resolver of names, the ciphers, and JavaScript's
-- regular expressions and JSON. Its simple operations on strings are functions on lists of
-- character codes.
pub mod Common
pub mod Database
pub mod Redis
pub mod TtlCache
pub mod Tenancy
pub mod Session
pub mod Failover
pub mod AgentSettings
pub mod AgentExecutor
pub mod Emails
pub mod Content
pub mod Leads
pub mod Tasks
pub mod Billing
pub mod TimeTracking
pub mod Clients
pub mod RefreshTokens
pub mod Auth
pub mod Scraper
pub mod Gateway
pub mod Channels
pub mod Directives
pub mod Hr
pub mod Projects
