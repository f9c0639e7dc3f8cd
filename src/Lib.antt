-- ===== src/Lib.antt =====
-- Firework: an orchestrator of Firecracker microVMs. Agents on nodes register with a control plane,
-- which elects a leader among its replicas, places the desired services on the nodes, and publishes
-- a configuration for each node; the agent of a node reconciles its machines with that
-- configuration and watches their health.
--
-- The parts and their files, by paths from the repository's root:
--   Config         internal/config/types.go: the records of services, volumes and nodes.
--   Scheduler      internal/scheduler/scheduler.go. `Storage` is fitStorage with localBinding and
--                  hasSharedVolume, `Place` is ScheduleWithStorage: the maps that it fills are the
--                  record `Progress`, its loop over the services is `run`, the search of a node
--                  is `choose`, and `settle` takes the node or leaves the service pending.
--                  `Legacy` is Schedule with bestFit, and BuildNodeConfigs.
--   ControlPlane   internal/controlplane. `StateStore` is the conditional access to one object of
--                  the store (blob_state.go) as a record of operations and laws; `Upsert` is the
--                  compare-and-swap loop of upsertNodeRecord (registry.go) and upsertPointer
--                  (util.go); `Leader` is renewLeadership and stillLeader (controller.go), and
--                  `Leader/System` the controllers that renew at once, as a step relation;
--                  `Registry` has the mutators and the handlers of registry.go with the identity
--                  in a certificate (certs.go) and the types of state.go and
--                  internal/statusmodel/status.go; `VolumeRecords` is volume_records.go, record by
--                  record; `Discovery`, `CrossNode` and `Rendering` are the rest of controller.go
--                  except runReconcile: the live nodes, the addresses of other nodes, and the
--                  publications, whose keys are data and whose writes may fail; the rounds of
--                  upsertPointer on a pointer are one such write, and the writes of other
--                  controllers to it are left out. `Discovery/Live` tells which nodes count.
--   Reconciler     internal/reconciler/reconciler.go. The managers that it calls are the record
--                  `Host`, with the laws of `Reconciler/Laws`; `OnManager` gives them for Vm.
--   Vm             internal/vm/manager.go: the table of machines.
--   Health         internal/healthcheck/checker.go: the monitor's checks and results.
--   Config/Size    internal/config/size.go: parseSize behind both of its entry points.
--   Ingress        internal/ingress/ingress.go: the host name that the metadata of a service asks for.
--   Traefik        internal/traefik/traefik.go: renderLocal and renderRemote fill a record of the files
--                  and of the owners of host names; `Files` is apply, with every call to the
--                  operating system that may fail as a field of `Faults`.
--   Enricher       internal/enricher: `Defaults` completes a service, `Checks` and `Validation` are the
--                  checks of input and output with their messages as data, `Tenants` expands the
--                  tenants' files, and `Pipeline` is Enrich, which composes them.
--   Agent          internal/agent/agent.go: assignNetworking gives the guests their addresses (`Addresses`,
--                  `Distinct`, `Enough`, `Guests`), with the kernel's arguments; the check of capacity; `Fetch` is
--                  fetchAndMerge; `Links` is resolveLinks, injectEnvVars and preflightRouting.
--   Base           what the parts share: tests, lists, maps, 64-bit arithmetic, sorting, texts.
--
-- How the source is read. An int or int64 is its 64-bit pattern, a natural number; a sum wraps at
-- 2 ^ 64 and a comparison is that of the signed values (Base/Int64). A time is a number of
-- nanoseconds and 0 the zero time; the clock is an argument. A map that is only read and written by
-- key is a function, one that is ranged over is an association list. sort.SliceStable is insertion
-- sort (Base/Sort); sort.Slice is the same where no two keys are equal, and else a parameter. An error that
-- ends a handler is the status of its response. Code outside the program (object storage, the
-- signing of certificates, the operating system, the network) is a parameter.
--
-- Bounds. The compare-and-swap loop makes six rounds, as in the source, and its end without
-- success is a result of its own. All other loops are over lists. Quantities of nodes and services
-- are taken to be below 2 ^ 61 where sums must not wrap. A leader's epoch
-- is an int64 whose sum wraps, and runs of controllers are taken to have fewer than 2 ^ 63 steps; the
-- times of its lease are numbers without a bound.
--
-- Not modelled: the agent's loop, the network, the files of volumes and images, the stores'
-- clients, the user interfaces and the commands, which are mostly input and output; of the
-- controller, runReconcile, whose parts are modelled one by one; of the enricher, the reading and
-- writing of files. In the reconciler and the monitor other goroutines are left out: a machine that
-- ends by itself in the middle of a reconciliation is seen by the next one. A text is a sequence of
-- whole characters, its length counts bytes, and a cut in the middle of a character leaves it out.
pub mod Base
pub mod Config
pub mod Scheduler
pub mod ControlPlane
pub mod Reconciler
pub mod Vm
pub mod Health
pub mod Ingress
pub mod Traefik
pub mod Enricher
pub mod Agent
