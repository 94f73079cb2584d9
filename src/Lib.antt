-- ===== src/Lib.antt =====
-- IdentityAttackGraph: a model of the analysis core of the platform and its theorems.
--
-- The program collects non-human identities from clouds, clusters and repositories, stores them as
-- a graph of nodes and typed edges, and analyses that graph: which nodes an identity can reach, the
-- paths on which an attacker gets to a valuable resource, the blast radius, and the findings that
-- detectors report. The collectors and the store feed the graph; the HTTP handlers, the worker and
-- the simulator query it.
--
-- Which file models which code:
--
--   Prelude and its children      Go's maps, `sort.SliceStable`, `int`, `append` and loops that keep
--                                 the best element, as functions with their laws.
--   Models, Models.Inventory,     internal/models/models.go: enums, ranks and records.
--   Models.Records
--   Graph                         internal/graph/graph.go and load.go: Node, Edge, Graph, New,
--                                 AddNode, AddEdge, Node, NodeIDForEntity, isCapabilityEdge,
--                                 IsTrustEdge, FromModels. `type` and `in` are called `kind` and
--                                 `inn`, since these words are taken.
--   Graph.Search                  the queue loop that Reachable, TrustChainDepth and AttackPaths
--                                 spell out each; a `Policy` holds what differs.
--   Graph.Reachable               Reachable.
--   Graph.TrustDepth              TrustChainDepth.
--   Graph.AttackPaths             AttackPaths, targetImpact and Path, here AttackPath.
--   Graph.BlastRadius             ComputeBlastRadius.
--   Graph.Percentile              percentile and ReachableCountP90 of load.go; the float64 expression
--                                 for the index is a parameter.
--   Graph.Explain                 Explain and narrate of load.go.
--   Simulate                      internal/simulate/simulate.go.
--   Detect.Subject, Detect.Engine internal/detect/detect.go: Run, Fingerprint, finding.
--   Detect.RoleChain              internal/detect/rolechain.go: deepestTrustChain and its helpers.
--   Detect.Support                what the detectors use of fmt, time and float64, and their helpers.
--   Detect.Hygiene, Detect.Access internal/detect/rules.go and secret.go: the detectors over the
--                                 current state.
--   Detect.Leaks                  internal/detect/rules.go and exposure.go: exposed credentials.
--   Detect.Usage, Detect.Anomaly  internal/detect/anomaly.go.
--   Detect.Detectors              the list that NewEngine wires up, and suspicious_role_chain.
--   Risk                          internal/risk/weights.go and score.go: configuration, input, helpers.
--   Risk.Factors, Risk.Score      the six factors; composite, urgency and severity.
--   Remediate                     internal/remediate/remediate.go.
--   Kubernetes                    internal/collectors/k8s/rbac.go.
--   Aws.Glob, Aws.Tags            internal/collectors/aws/tags.go: globMatch, resourceReaches and the
--                                 resolver of declared criticalities.
--   Aws.Policy                    internal/collectors/aws/policy.go: analyzePolicies.
--   Notify                        internal/notify/notify.go and slack.go: New, SeveritiesAtLeast and
--                                 the message for Slack.
--   Auth, Auth.Jwt, Auth.Jwks     internal/auth: roles and tokens, the keys and claims of JWTs, and
--                                 the cache of signing keys.
--   Worker.Store, Worker.Project  cmd/worker/graphbuild.go: projectGraph over the answers of the
--                                 database to UpsertNode and UpsertEdge.
--   Worker.Alerts                 cmd/worker/alerts.go: runAlerts, with ClaimUnalerted and MarkAlerted
--                                 of internal/store/findings.go.
--   Tests                         the theorems at concrete inputs.
--
-- Conventions. A Go map is an association list in which a key stands once, and the order of the
-- list is one of the orders in which `range` may deliver it. A UUID is a number; its text, the
-- hash of fingerprints and the functions of the package `strings` are parameters. A typed string
-- is a text. A float64 that is only carried along is its bit pattern. An instant is the number of
-- nanoseconds since the zero `time.Time`. Counters and hops are natural numbers: they count nodes
-- and edges held in memory and stay far below 2^63. The points of the risk engine come from a
-- configuration file and wrap around at 64 bits. The float64 operations of the composite are a
-- parameter, and so is the order in which `range` delivers the factors. `maxHops` and `limit` are
-- natural numbers, since every caller passes a positive constant; a negative `limit` would make
-- the slice expression of AttackPaths panic.
--
-- The queue loop runs on fuel: one round for each edge of the graph and one more. A node is
-- pushed at most once, and only at an edge that leads to it, so that many rounds are enough.
--
-- The database, the network and the notifier are called in sequence. What the database answers to
-- the projection may depend on every call made before; what fails in an alert sweep, and what the
-- network answers to the cache of keys, are arguments of each call. A lock makes a call whole and is
-- left out. Errors whose texts nothing reads are `none`.
--
-- globMatch backtracks on fuel: its steps are bounded by a product of the two lengths, and that many
-- are shown to be enough.
--
-- Not modelled: `Neighborhood`, the loading of the weights file, the rest of the collectors, rate
-- limiting and export; and, as I/O around this core, the rest of the store, the HTTP and GraphQL
-- handlers and the other commands.
mod Tests
pub mod Prelude
pub mod Models
pub mod Graph
pub mod Simulate
pub mod Detect
pub mod Risk
pub mod Remediate
pub mod Kubernetes
pub mod Aws
pub mod Notify
pub mod Auth
pub mod Worker
