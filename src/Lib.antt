-- ===== src/Lib.antt =====
-- smolvm-operator: a Kubernetes operator for machines of the smolvm runtime.
--
-- The operator has two programs. The controller (internal/controller, cmd/main.go) reconciles
-- SmolVM objects: it places each on a node, asks that node's runtime for a machine, keeps the
-- machine in the wanted state, and writes the object's status. The runtime agent
-- (cmd/runtime-agent) runs on each node: it serves the runtime API and reports the node as a
-- SmolVMNode object. They meet in the API types (api/v1alpha1) and in the runtime API, which the
-- controller calls through the client of internal/smolvm.
--
-- Files:
--  * Prelude.antt: shared names, machine integers, formatted text. An int32 or int64 is its bit
--    pattern; the signed order and the wrapping sum are written out.
--  * Api.antt: api/v1alpha1/smolvm_types.go and smolvmnode_types.go.
--  * Smolvm.antt: the data and errors of internal/smolvm/client.go; Client.antt: its methods.
--  * Http.antt: requests, responses and sequences of exchanges. A client whose requests a server
--    answers is the server's handlers put in place of the sending (through). JSON is a codec
--    that is a parameter, with the law that what one side writes the other reads back.
--    Http/Paths.antt has the functions of Go's strings package that are used.
--  * Agent.antt: cmd/runtime-agent/main.go: health, capabilities, the handlers and routes;
--    Agent/Cleanup.antt: cleanupOrphans; Agent/Report.antt: report; Agent/Report/Told.antt: what a
--    reported status says, spelled out. Agent/Relay.antt and the files
--    below it put the client and the handlers together; Agent/Report/Laws.antt puts the report
--    and the scheduler's test together. Agent/Startup.antt: main with its flags and environment,
--    getenv, portFromAddr and the probes of files; Agent/Certificate.antt: selfSignedTLSConfig;
--    Agent/Report/Loop.antt: reportLoop;
--    Agent/Supervise.antt: supervise. What main does is the list of its effects; a loop runs over
--    the list of what it observes in its rounds, up to the end of its context.
--  * Strconv.antt: strconv.Atoi and strings.LastIndex of Go's library.
--  * Manager.antt: cmd/main.go, and SetupWithManager.
--  * Deps.antt: the libraries that are called and are not part of the repository, as a record of
--    functions with the laws of their documentation (finalizers, not-found errors, DeepEqual),
--    and two functions of Go's library that are taken as given: SHA-256 and ParseCIDR.
--  * Program.antt: effects. A function of the source that calls the API server, a runtime or the
--    clock is a tree of calls, and what answers is left open: a theorem about such a function
--    is about every answer, or about those that it names. Program/Rules.antt has the rules,
--    Program/Past.antt what a history of answers holds, Program/Control.antt the shape of
--    `if err != nil`.
--  * Controller.antt and below: internal/controller/smolvm_controller.go. Conditions
--    (setCondition, hasCondition), Validation (validateSpec), Machine (requests, update checks,
--    phases), Fit (the tests of the scheduler), Reconciler (runtimeForNode, event), Status
--    (updateStatus, runtimeUnavailable), Schedule (schedule, nodeRejectReason, boundVMs), Delete
--    (reconcileDelete), Reconcile (Reconcile), Watch (requestsForNodeChange).
--  * Controller/Permitted.antt and Trust: the contract of Reconcile, a relation of the history of
--    answers and the next call; the files below it prove the contract for each stretch of the
--    code, and Controller/Guarantees.antt for the whole.
--  * Controller/Placing.antt: what schedule ends with when a node suits the object.
--  * Controller/Progress.antt: what Reconcile does when the node's runtime serves
--    (Controller/Serving.antt, Program/Progress.antt).
--  * Controller/Converge.antt and below: repeated reconciliation of an object in an environment
--    that keeps its promises: the API server stores what is written, the node is eligible, its
--    runtime does what it is asked, to the machine that it is asked about, and nobody else
--    interferes (Program/Runs.antt). Arrival
--    starts with a new object (Offering: the scheduler is answered too), Deletes is about one
--    that is being deleted.
--  * Cluster.antt and below: the store of all SmolVM objects as a step relation of users, API
--    server and controller, its invariants, and Reconcile's writes as steps of it. A user's edit
--    of the spec of a placed object is no step: the invariants do not survive it.
--  * Ownership.antt: the controller and the cleanup together.
--  * Samples.antt: concrete data, libraries that keep the laws, and codecs that read back.
--
-- No function here needs fuel but the printing of a decimal number, whose fuel is the number
-- plus one, more than its digits: every loop of the source runs over a list.
--
-- Not modelled: log lines, scheme registration, signals and timers, TLS and cryptography, whose
-- libraries are parameters, the encoding of JSON, generated code. A request's path is the URL's
-- path after unescaping, and is taken as clean for the mux. A write to the API server is a call
-- with the object written; what the server does with it is open, but where a theorem says
-- otherwise. The agent's report and its handlers share the node's UID without a lock; the model
-- orders them.
-- The clock is read before each setCondition, also where its reading is not used.
pub mod Prelude
pub mod Api
pub mod Smolvm
pub mod Http
pub mod Client
pub mod Agent
pub mod Strconv
pub mod Deps
pub mod Program
pub mod Controller
pub mod Ownership
pub mod Cluster
pub mod Manager
mod Samples
