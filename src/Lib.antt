-- ===== src/Lib.antt =====
-- The control and data plane of Controller Mesh, which splits the pods of a Kubernetes controller into
-- subsets that each handle the requests of their own namespaces and objects.
--
-- The manager reads a VirtualApp (apis/ctrlmesh/v1alpha1/virtualapp_types.go), which its webhook has
-- validated, generates a route and sends it with the endpoints to the proxy in each pod of the
-- application. The proxy stands between the controller in its pod and the API server. It decides by the
-- route which subset a request is for, lets its own subset's through, and records what it has decided.
-- It loads a new spec only if the spec decides the recorded requests as before; otherwise the manager
-- deletes the pod, so that no two subsets handle one object.
--
-- Files, and the code that they model:
--   Prelude        the libraries' names passed on; tests, lists, sets, maps, sorting
--   Proto          the messages (apis/ctrlmesh/proto/ctrlmesh.proto)
--   Selector       label selectors (util/selector.go). Meaning: what a compiled selector selects;
--                  Merge, Negate: what merged and negated selectors select
--   Route          the decisions of a proxy (apis/ctrlmesh/proto/ctrlmesh_internal.go). Convert: from a
--                  message; Reference: the subset of a request by cases; Isolation: proxies of the same
--                  limits; Objects, Exclusion: what the object selectors let through
--   Kube           pods and namespaces as far as they are read (util/pod.go)
--   VirtualApp     the types, and in Validation the webhook
--                  (webhook/virtualapp/virtualapp_validating_handler.go). Checks: results that
--                  succeed; Accepted: what it admits; Panics: at what it panics
--   Server         the routes that the manager generates (controllers/server/server_util.go).
--                  Partition: which namespaces the rules list; Generated, Routing: what proxies
--                  make of them; Isolated: proxies with routes of different times
--   Reconciler     Reconcile (controllers/server/virtualapp_controller.go). Order: what a run does;
--                  Settled: when it holds back; Expected: what the next runs wait for
--   RequestsStore  the recorded decisions (proxy/protomanager/requests_store.go)
--   SpecManager    expected and current spec (proxy/protomanager/proto_manager.go, proto_storage.go).
--                  Loadable: when a spec is loaded; Invariant: the reachable states; Restart: the start
--                  from the files
--   Router         what a proxy answers (proxy/apiserver/router/router.go, proxy/webhook/router/router.go)
--   Events         what is put into the work queue when a pod or a namespace changes
--                  (controllers/server/virtualapp_event_handler.go). Alike: lists of
--                  namespaces that differ in one; Missed: changes that are not put there
--   Stream         the stream between a proxy and the manager
--                  (proxy/protomanager/proto_manager_grpc.go, controllers/server/grpc_server.go).
--                  Registered, Planned: a proxy
--                  registers, and what Reconcile does then; Reported: what it reports of a
--                  spec; Link: both ends of a stream as they take turns
--   ManagerState   the endpoints of the manager (controllers/managerstate/managerstate_controller.go).
--                  Dialled: the one that a proxy dials
--   Injection      the containers of a proxy in a pod (webhook/pod/virutalapp_injection.go,
--                  pod_mutating_handler.go). Containers: what is built; Inject: the
--                  handlers; Matched: for which VirtualApp;
--                  Labelled: what becomes of the pod
--   LeaderElection the locks of a controller (proxy/leaderelection/election_handler.go,
--                  adapter_util.go, util/string.go). Replace: LastReplace; Locks: a lock for each
--                  subset; Leader: what is reported
--   Traffic        traffic policies (proxy/filters/traffic). Rules: which requests they are about;
--                  Rate, Backoff: whether a request may go on; Filter: the handler. Slots, Reached:
--                  requests in flight over all orders of requests that begin and end
--   ApiServer      the way of a request through a proxy (proxy/apiserver/apiserver_handler.go), and
--                  the response to a list. Agents: overridden user agents; Lists: what is left of a list
--   Configs        the configurations of the manager's webhooks
--                  (webhook/util/controller/webhook_controller.go). Stable: what runs leave alone
--   Webhook        reviews at a proxy (proxy/webhook/webhook_handler.go). Dials: where they go
--   Query          the query of a list or watch (util/http/request_util.go, injectSelector of
--                  proxy/apiserver/router/router.go). Split, RoundTrip: written queries are read back;
--                  Injected: what the selector of a subset does to a query
--   Router/Watch   the bytes of a watch that a client reads (watchHandler)
--   Examples       runs at concrete inputs
--
-- State is passed explicitly: a method takes the record of its receiver and returns the new one. A Go
-- error is a constructor of a result type, and so is a panic where the code can run into one (a nil
-- pointer, a failing write). A sets.String is the list of its members, a map an association list in
-- which the first entry of a key counts; the order in which Go ranges over a map is the order of the
-- list, for every order. All loops are structural recursion, so there is no fuel;
-- the reads of a watch are as many as its client makes, with a bound from which on it has all bytes.
--
-- Arguments stand for what is not in this repository: the matching of label requirements with its
-- documented laws, regular expressions, JSON and protobuf codecs, reflect.DeepEqual, the answers of the
-- API server and of gRPC streams, hashes. A mutex makes the operations that it guards single steps: the
-- spec that a router acquires cannot be replaced before it is released.
--
-- A step of the traffic filter is all that a request does before the next handler is called, or all
-- that its deferred calls do: requests that are in the filter at once stand as steps one after the
-- other. A gRPC stream keeps the order of its messages.
--
-- Not modelled: HTTP plumbing and serializers, token buckets, certificates,
-- generated clients, logging and metrics.
pub mod ApiServer
pub mod Configs
pub mod Events
pub mod Examples
pub mod Injection
pub mod Kube
pub mod LeaderElection
pub mod ManagerState
pub mod Prelude
pub mod Proto
pub mod Query
pub mod Reconciler
pub mod RequestsStore
pub mod Route
pub mod Router
pub mod Selector
pub mod Server
pub mod SpecManager
pub mod Stream
pub mod Traffic
pub mod VirtualApp
pub mod Webhook
