-- ===== src/Lib.antt =====
-- Verification library of browser-profile-studio, a studio that isolates browser profiles and lets
-- agents work in them under policies.
--
-- src/browser/control-lease.ts decides whether the agent or a user writes to a session. Its model is
-- ControlLease: State has the fields and argument checks, Lease the private methods, Calls and
-- Guards the public ones under the source's names in snake case (requestHandoff is
-- request_handoff), and Run the sequences of calls and timers. The clock, the token source and
-- SHA-256 are the fields of a `Host`.
-- src/account/account-health.ts keeps an account's health and its retry delays: AccountHealth.
-- src/operations/account-admission.ts admits work by concurrency and by rate: Admission.
-- src/distributed/profile-lease.ts gives one holder at a time a profile: ProfileLease has
-- MemoryLeaseManager with the timers that Node would run; its calls take the manager's number, the
-- clock's reading and the random token as arguments.
-- src/distributed/account-placement.ts puts each account on a worker: AccountPlacement.Worker has
-- the registry's workers, Store the interface of the shared store (a record of its methods and of
-- what the registry relies on) and the in-memory store as an instance, Acquire acquirePlacement up
-- to its write, Commit the write, and Interleaving concurrent acquisitions of many registries.
-- src/distributed/queue-adapter.ts hands tasks to workers: TaskQueue.Task has the records and the
-- tenants, Queue the tasks of MemoryQueueAdapter and their order, Loop the search of dequeueTask
-- with its restarts, Reads its queries and heartbeats, Urls the claims of URLs. A worker's calls are fenced by the lease id that dequeueTask gives.
-- src/proxy keeps the proxies: ProxyPool.Normalize is the validator, whose URL parser is a
-- parameter, Store and Edit the methods of ProxyPoolStore without its file (delete is delete_proxy),
-- Run sequences of calls with checks that wait.
-- src/policy/url-policy.ts says where the browser and the fetcher may go: UrlPolicy.Address, Groups and
-- Classify have the classes of addresses, Policy the patterns and exceptions, Resolve
-- resolveAllowed. isIP, the URL parser and domainToASCII are the fields of a `Platform`; the resolver's
-- answer is an argument, and a call that waits for it is one step.
-- src/browser/snapshot-history.ts keeps the last observations of a page for comparison:
-- SnapshotHistory.Node normalizes and compares nodes, Retain has the entries and their eviction,
-- Prepare prepareSnapshot, Matching makeDiff and Diff diff and recordWithDiff. One reading of the
-- clock serves a whole call. SHA-256, the generator of identifiers and the size of an entry's JSON are
-- the fields of a `Platform`.
-- src/mcp/runtime-guard.ts lets MCP calls through at a bounded rate and stops writes under user
-- control: RuntimeGuard.
-- src/browser/automation-policy.ts sets the ceilings of a policy: AutomationPolicy.
--
-- A method that can throw is a `Method` (Prelude.Method): it returns or throws, and leaves the
-- object's fields as they then are, so that changes made before a throw stay. A `Map` is an
-- association list in the order of insertion. Numbers are natural: times are whole milliseconds.
-- Every loop is a structural recursion, but for the printing of a number n, which takes at
-- most n + 1 steps and has them as fuel, the test of an IPv6 prefix, which has at most 8 groups, and
-- the loop of dequeueTask, whose fuel for a queue of n keys is n + 1 and the sum of 1 to n: a search
-- reads each key once, and the next one is over a shorter queue.
--
-- Error messages, logging and checks of an argument's type are not modelled, nor are the browser
-- sessions, the HTTP and MCP servers, the Redis clients, storage and the network.
pub mod Prelude
pub mod ControlLease
pub mod AccountHealth
pub mod Admission
pub mod ProfileLease
pub mod ProxyPool
pub mod SnapshotHistory
pub mod AccountPlacement
pub mod TaskQueue
pub mod RuntimeGuard
pub mod AutomationPolicy
pub mod UrlPolicy
