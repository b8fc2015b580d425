-- ===== src/Lib.antt =====
-- The model of customrouter: a Kubernetes operator that expands CustomHTTPRoute resources into a
-- route table, and an external processor that Envoy asks, for each request, which backend the
-- table sends it to and how its headers change.
--
-- The parts, and how they interact:
-- Api models api/v1alpha1/customhttproute_types.go, the resource, with one record or data type for
-- each Go type. Api/Validation models customhttproute_validation.go beside it: `validate` is
-- `Validate`, and each `validate_…` is the Go function of that name; `none` is the nil error.
-- Routes models the types of pkg/routes/types.go, the table that operator and processor share.
-- Routes/Match is `Match` with its parts and `CompileRegexes`; Routes/Partition is
-- `BuildPartitionIndex` with `FindRoute`. Routes/Actions, Routes/Regex, Routes/Policy,
-- Routes/Expand, Routes/Sort and Routes/Merge model pkg/routes/expand.go: `expand_routes` is
-- `ExpandRoutes`, `sort_routes` is `SortRoutes`, `merge_routes_config` is `MergeRoutesConfig`.
-- Routes/Loader models `Load` and `FindRoute` of pkg/routes/loader.go on top of them: merge, sort,
-- compile, index, then look up. Extproc models internal/extproc/router.go and processor.go.
-- Extproc/Reading is the loop over the request headers, Extproc/Target the functions on the
-- request target and the host, Extproc/Variables `substituteVariables`, Extproc/Redirect and
-- Extproc/Forward the two responses to a matched route, and Extproc/Phases the handlers of one
-- stream and the loop of `Process`. Webhook models the comparison of two route matches in
-- internal/webhook/hostname_checker.go, the conflict check of the admission webhook, and
-- Webhook/Expand its `expandMatchPath`, which repeats the operator's expansion. ConfigMaps models
-- how the operator splits a table over ConfigMaps, in internal/controller/customhttproute/sync.go:
-- the names of the partitions, ConfigMaps/Buckets `splitHostRoutes`, ConfigMaps/Split
-- `partitionConfig` with `splitByHosts`; ConfigMaps/Held says what a list of partitions holds.
-- Reconciler models the memory of the operator's controller, in controller.go and sync.go beside it:
-- `rebuild_target` is `rebuildTarget`, with its lock and cooldown, and Reconciler/Flight its phases
-- as the steps of several workers; Reconciler/Cluster is the writing and deleting of ConfigMaps,
-- Reconciler/Rebuild `rebuildConfigMapsForTarget`, which expands, merges, partitions and writes, and
-- Reconciler/Annotations `ensureAnnotations`. K8sLoader models pkg/routes/k8s_loader.go, the reading
-- side: `build_config`, and K8sLoader/Reload its reload loop as steps. Base has what
-- these share: texts, tables, a stable sort and their lemmas. Examples has concrete resources and
-- requests.
--
-- State: a Go map is an association list with distinct keys (`IsMap`), taken in the order in which
-- Go would range over it. The loader, the stream context and the variables of each loop are
-- records that come in and go out as values. A pointer that may be nil is an `Option`. Texts are
-- lists of bytes. Case folding and trimming are those of ASCII text. Machine integers that are
-- only compared are integers without a bound; the lengths that `ExpandRoutes` multiplies are
-- natural numbers, since no object that Kubernetes stores is large enough to make the product
-- wrap. `itoa_nat` runs on fuel for 20 digits, more than a 64-bit integer has, and `double_until`,
-- the loop of `stableBucketCount`, on 64 rounds, in which its 64-bit integer, written in two's
-- complement, has wrapped. A `uint32` of the hash wraps. All other loops are recursion on the list they range over or,
-- for the attempts of `splitHostRoutes`, on the number that the source gives. An error of
-- `splitHostRoutes` is a kind with its numbers. A time is a number of nanoseconds. What several
-- goroutines do at once is a relation of steps with the states that it reaches.
--
-- Parameters: `compile` is `regexp.Compile` with `MatchString`, `compiles` its success, `read`
-- reading and decoding one file of routes, `parse_query` is `url.ParseQuery`, and `find_route` of
-- Extproc/Phases the interface RouteFinder. `encode` is the JSON encoder on a configuration,
-- `marshal` `json.Marshal` of a route, `parse` `json.Unmarshal` of a configuration's hosts, and
-- `IsJson` what the sizes of a partition rely on. `Client` is the client of the Kubernetes API with
-- `retry.OnError`, `IsClient` what it documents and `IsCache` what the cache does that it reads from.
--
-- Not modelled: the JSON encoding itself, logging, metrics, the clock, the file watcher, the watch
-- of the API server and its restarts, the webhooks' listing of resources and their handlers
-- (internal/webhook), `ReconcileObject` and `Reconcile` with the conditions of a resource, the
-- EnvoyFilters and the ExternalProcessorAttachments (internal/controller), the commands (cmd) and
-- generated code.
pub mod Base
pub mod Api
pub mod Routes
pub mod Extproc
pub mod ConfigMaps
pub mod Reconciler
pub mod K8sLoader
pub mod Webhook
pub mod Examples
