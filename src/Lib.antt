-- ===== src/Lib.antt =====
-- Docker Swarm (classic): a manager that places containers on a cluster of Docker engines.
--
-- The parts, and the files that model them. A container's configuration (cluster/config.go)
-- carries directives for the scheduler: Config.antt, with its theorems in Config/Building.antt
-- and Config/Edits.antt, and the contract of encoding/json in Config/Codec.antt. Containers and
-- images (cluster/container.go, cluster/image.go) are found by queries: Container.antt,
-- Image.antt; Image/Filtering.antt lists images, and Container/State.antt has the texts for a
-- state. The scheduler sees an engine as a node (scheduler/node/node.go): Node.antt. Filters
-- (scheduler/filter) narrow the nodes: Filter/Expr.antt parses and matches expressions (expr.go),
-- Filter/Outcome.antt has the loop that the filters share, Filter/Labels.antt constraints,
-- affinities and whitelists, Filter/Capacity.antt health, slots and dependencies,
-- Filter/Port.antt ports, Filter/Batch.antt their application one after the other (filter.go). A
-- strategy (scheduler/strategy) weighs and sorts what is left: Strategy.antt. The scheduler
-- (scheduler/scheduler.go) runs the filters and then the strategy, first with soft expressions
-- and, where that fails, without them: Scheduler.antt.
--
-- An engine (cluster/engine.go) is a state machine: Engine.antt has its state, its health and its
-- timing, Engine/Specs.antt what it learns of the Docker engine, Engine/Cache.antt its cache of
-- containers, Engine/Caches.antt those of images, networks and volumes, Engine/Calls.antt the
-- operations on one container, Engine/Events.antt what an event of the Docker engine refreshes,
-- Engine/View.antt the node that the scheduler sees, Engine/Steps.antt the operations as steps
-- and their invariant, Engine/Returning.antt an engine that is connected again after its Disconnect. Networks and volumes (cluster/network.go, cluster/volume.go) are found and
-- filtered in Network.antt.
--
-- The cluster (cluster/swarm/cluster.go) keeps pending and validated engines in two tables:
-- Registry.antt, with engines as objects in a store. Cluster.antt has what the cluster shows of
-- its engines, and the nodes with the containers that are being created; Cluster/Creation.antt
-- the critical sections of createContainer, Cluster/Creating.antt CreateContainer with its
-- retries and Cluster/Errors.antt the errors it looks at, Cluster/Operations.antt,
-- Cluster/Networks.antt and Cluster/Volumes.antt the operations that go to one or to all engines.
-- There the engines are values in the table. Cluster/InFlight.antt lets creations overlap, each
-- with its two critical sections. Builds.antt is the synchronization of the requests of one build
-- (cluster/swarm/build.go): the critical sections as functions, and in Builds/Steps.antt all
-- interleavings of the routines that run them. Watchdog.antt moves the containers of a failed
-- engine (cluster/watchdog.go), on the cluster and on the caches of the engines in its table; what
-- the engines answer is the record World. EventHandlers.antt is the table of event handlers
-- (cluster/event_map.go), DriverOptions.antt the options of the driver (cluster/options.go).
--
-- How the code is modelled. Functions keep their names, in snake case. A string is a list of its
-- bytes (Text.antt), and text is ASCII. An int64 is an integer with the wrap-around of each
-- operation written out (Int64.antt). A map is an association list (Assoc.antt) whose order
-- stands for one of the orders in which Go may visit it. Errors are data (`err`, or `none` where
-- there is one error only), and a run-time panic is `panic`, or `none` where the function cannot
-- fail otherwise: an index out of range, a division by zero. All loops are over lists, or over a
-- number of retries that is left, and are structural recursion; there is no fuel. What an
-- engine's API answers is an argument of the operation that asks. The operations of an engine are
-- steps that follow each other: each holds the engine's lock for what it changes, and
-- interleavings inside CheckConnectionErr are not modelled. The loop of the random strategy
-- counts down, and is recursion on its counter.
--
-- What is not under the repository's own packages is a parameter: encoding/json (a codec that
-- decodes what it encodes), regexp.Compile and MatchString, stringid.TruncateID and net.ParseIP
-- (Externals.antt), filters.Args of the docker API (Network.antt), the patterns that errors are
-- matched with (Cluster/Creating.antt), os.Getenv and the parsers of strconv
-- (DriverOptions.antt), sort.Sort (Strategy/Sorting.antt: a permutation, sorted where the order
-- is a strict weak order) and rand.Intn (Strategy/Random.antt: below its bound). Each has a
-- concrete instance, with which the samples run.
--
-- Not modelled: HTTP handlers, proxies and servers (api), the command line (cli), token discovery
-- (discovery/token), test doubles, locks and log messages.
pub mod Prelude
pub mod Text
pub mod Int64
pub mod Assoc
pub mod Config
pub mod Image
pub mod Container
pub mod Network
pub mod Node
pub mod Externals
pub mod Filter
pub mod Strategy
pub mod Scheduler
pub mod Engine
pub mod Registry
pub mod Builds
pub mod Cluster
pub mod Watchdog
pub mod EventHandlers
pub mod DriverOptions
