-- ===== src/Lib.antt =====
-- moat-operator: the Kubernetes operator of the synapse proxy.
--
-- The operator reads Ingresses, Gateway API objects, Services, EndpointSlices, ConfigMaps and pods,
-- and gives the proxy its upstreams document, its certificates, its configuration files and its
-- identity table. The parts that are modelled, each in the file of its name:
--
--   Routes (controllers/routes.go): the render model. Routes/Parse has parseBool, parseUint,
--   parseSize and csv; Routes/Annotations has parseAnnotations; Routes/Model has addCert, addRoute,
--   addRegexRoute and addPassthroughHost, which return the model and whether they claimed;
--   Routes/Quote has Go's %q and %d; Routes/Render and Routes/Render/V2 have renderUpstreams and
--   renderUpstreamsV2.
--   Endpoints (controllers/endpoints.go, and backendAddr of controllers/ingress_controller.go): from
--   a backend to its servers, with the fallback from endpoints to the ClusterIP to the FQDN.
--   Certs (controllers/certs.go): the stems under which certificates are projected;
--   Certs/Projection has projectCerts, projectCertsToSecret, writeFileIfChanged and pruneCerts over a
--   directory whose calls may fail.
--   Ingress (controllers/ingress_controller.go): isOurs, defaultClassIsOurs and the loop of render
--   over the Ingresses, which calls Endpoints and writes to the model of Routes; Ingress/Claims
--   and Ingress/Accounted follow a route through these loops.
--   Gateways (controllers/gateway.go): headerFilters, ruleBackends, rulePaths and gwBackend;
--   Gateways/Program has renderGateways, which adds to the model that the Ingress pass has left.
--   Rendering (controllers/ingress_controller.go): render as a whole, and the choice of the schema.
--   ConfigSync (controllers/configsync_controller.go, and writeIfChanged): the projection of
--   ConfigMap keys into a directory, with the calls that may fail.
--   Signal (controllers/signal.go): the debouncer of reload signals; Signal/Trace has its runs, with
--   the timers that the runtime holds beside it.
--   Resolver (controllers/upstreams_resolver.go): splitHostPort, isIPLiteral, parseClusterFQDN and
--   rewriteServer; Resolver/Document has resolveYAML over parsed values, and
--   Resolver/Document/Servers the servers that a document names.
--   Identity (controllers/identity_producer.go): from pods to identity entries; Identity/Stream has
--   the producer's flushDelta and buildAndUpload.
--   NetVars (controllers/netvars_resolver.go): HOME_NET and the Reconcile that writes it into
--   config.yaml; NetVars/Addresses has net.ParseIP and net.ParseCIDR.
--   ConfigHash (controllers/configmap_controller.go): the hash over ConfigMaps and Secrets;
--   ConfigHash/Rollout has referencedSources and the Reconcile that patches the workloads.
--   Edges (controllers/edge_producer.go): ports, peers and workloads of NetworkPolicies; Edges/Walk
--   has walkPolicyEdges with its callbacks, Edges/Lines the lines and the document, and Edges/Stream
--   the producer's flushDelta and buildAndUpload; Edges/Run has sequences of these.
--   Relay (upload and postDelta of both producers): the requests to the download API.
--   Classify (controllers/classify.go): the workloads that the internet reaches, and the names of
--   the control plane.
--   Kube has the objects of the Kubernetes API that these read, cut to the fields read.
--   Base has the names and helpers that all share; Tests has concrete objects.
--
-- A Go map is an association list in which an assignment replaces the value of a key. Where the code
-- ranges over a map and the order could matter, a theorem says that it does not, or the code sorts.
-- A string is the list of its code points. Errors of the API server are `none` or a constructor. A
-- uint64 is a natural number that the parsers keep below 2^64; ports and weights are natural numbers.
-- A sequence number wraps at 2^64.
-- Every loop is structural recursion over the list it ranges over, so no fuel is needed.
--
-- Parameters: the reads of the API server (`Api`, `GatewayApi`, `get`), the YAML library
-- (`unmarshal`, `marshal`), SHA-256 in hex (`sha256_hex`), the JSON encoder of a delta (`encode`), the
-- HTTP client, the compiler of label selectors (`as_selector`) and the table of printable characters
-- (`is_print`), none of which is code of the repository. The calls of a file write end as `Faults`
-- or `DirFaults` says.
--
-- Not modelled: log lines, metrics and Events other than the warnings that are notices; the status
-- conditions; leader election; the MMDB writer; the timers that choose when a producer runs; the
-- wiring in main.go.
mod Base
pub mod Kube
pub mod Routes
pub mod Endpoints
pub mod Certs
pub mod Ingress
pub mod ConfigHash
pub mod ConfigSync
pub mod Resolver
pub mod Signal
pub mod Gateways
pub mod Rendering
pub mod Tests
pub mod Identity
pub mod Classify
pub mod Relay
pub mod Edges
pub mod NetVars
