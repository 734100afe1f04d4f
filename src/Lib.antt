-- ===== src/Lib.antt =====
-- procri, the CRI runtime of elotl/luna-for-mac: a gRPC service that lets a kubelet on a Mac run
-- processes as if they were containers.
--
-- The program. The runtime service (procri/pkg/runtimeservice) keeps a record of each pod sandbox and
-- of each container in a data store on disk, starts a process for a container, and stops it by
-- signals. The image service (procri/pkg/imageservice) fetches nothing: it keeps a record of each
-- image name that was pulled. Both use the same kind of store, one JSON document for each key.
--
-- The files.
--   Base, with children: texts, lists, signed integers and results, as the source uses them.
--   Json: JSON documents and how encoding/json stores struct fields in them, without the text layer.
--   Disk: the data store. It is a library (github.com/peterbourgon/diskv), so it is a parameter: a
--   state with four operations. `IsLawful` says what a write and an erasure that succeed do to later
--   reads, `IsReliable` that they succeed, and `IsListing` what Keys gives. Disk.Memory is a store that
--   has all three.
--   Path: procri/pkg/runtimeservice/util.go (splitPath, isInsidePath) and isPathAllowed of
--   container.go, over filepath.Clean and filepath.Join for Unix. Path.Parts says what the
--   parts of a path are, Path.Reached follows a path from the root as an independent description, and
--   Path.Allowed says which mounts are refused.
--   Image: procri/pkg/imageservice/imageservice.go. Image has the names and the slice helpers,
--   Image.Stored the JSON document and getImage, putImage, deleteImage and listImages, Image.Handlers
--   ListImages, ImageStatus, PullImage and RemoveImage. `hash` stands for makeImgKey, SHA-256 in
--   hexadecimal digits. Image.FsInfo has ImageFsInfo. Image.Catalog is the abstract view of the
--   service, a set of tags and a set of digests under each key, with its own steps, and
--   Image.Catalog.Refines relates the two. The other children hold theorems: Image.Listed those of
--   ListImages.
--   Runtime.Container, Runtime.Sandbox, Runtime.Records: the structs of container.go and podsandbox.go,
--   their JSON documents, their keys (makeContainerKey, makeSandboxKey, makePodID), and get, put,
--   delete and list.
--   Runtime.Types: the state that the handlers work on: the store, and logs of the signals sent, of
--   what was done to files and of the processes started.
--   Runtime.Create: CreateContainer, with makeEnvList (Create.Env) and symlinkToContainerPath
--   (Create.Link).
--   Runtime.Start: StartContainer. Runtime.Terminate: trackContainerProcess and terminateContainer.
--   Runtime.Stop: StopContainer and RemoveContainer.
--   Runtime.Pods: RunPodSandbox, StopPodSandbox, RemovePodSandbox and PodSandboxStatus, with
--   terminateSandboxContainers and removeSandbox.
--   Runtime.Listing: ListContainers, ListPodSandbox, ContainerStatus and the filters of containers and
--   sandboxes. Runtime.Stats: ContainerStats and ListContainerStats of containerstats.go.
--   Runtime.Service: the calls and the exits of processes as steps of one relation, what is to hold of
--   every stored record; Runtime.Service.Reached is about every state that is reached, and its other
--   children go through the operations one by one.
--   Runtime.Service.Forced follows RemovePodSandbox to its end, and Runtime.Service.Orphaned a
--   RemoveContainer whose caller has gone.
--   Runtime.Service.Linked is about stored containers and the lists of their sandboxes.
--   Runtime.Overlap: calls of CreateContainer in two parts, up to the look-up of the sandbox and from
--   there on, between which other calls may come. Runtime.Overlap.Pool has any number of such calls
--   among all the other steps, and Runtime.Service.Shrinks what those steps cannot do.
--   Runtime.LogPipe: logpipe.go, the lines of a stream, their entries in the log, and every order of
--   the two goroutines' writes (`Merge`). Runtime.Exec: ExecSync, Exec, Attach and PortForward of
--   streaming.go. Runtime.Duration: the timeouts in seconds as int64 nanoseconds.
--   Runtime.Version: Version and convertToSemVer. Runtime.Info: the calls that always answer the same.
--   Streaming: procri/pkg/streaming/streaming.go: Exec with and without a terminal, Attach, PortForward
--   with its two waits. Streaming.Setup: NewStreamingServer.
--   Server: procri/pkg/server/server.go and procri/cmd/procri/main.go, and the constructor of the
--   runtime service: the start of the program as a chain of steps that may fail. Server.Lifecycle:
--   Close, and the goroutine of the streaming server.
--   Path.Tests, Image.Tests, Runtime.Tests, Streaming.Tests, Server.Tests: the tests of the source and
--   the theorems at examples.
--
-- How the code is read. A handler is a function of the state and the request, and of what the
-- operating system answers to its calls (`LinkCalls`, `Launch`, `Kill`, `Process`, `Forward`,
-- `Host`); it gives its answer and the new state. Log messages are left out. The waiting loop of
-- terminateContainer is a recursion on the list of its wakes (`Wake`): each is a time in nanoseconds
-- with a tick, and the processes that have exited since the last one, or with the end of the context.
-- The timer that time.After makes in each round is the loop's own: it is received where it is due
-- before the wake, and at the same time the `select` may take either, as the wake says.
-- The list may end while the loop still waits, and the answer is then `waiting`, so that a run of
-- any length is a list. `OnTime` says that the ticker keeps time. The loop of
-- pipeOutputToLogFile has fuel, the length of its stream, which is enough since each line that is
-- read is not empty; all other recursions are on lists and texts. In Runtime.Service the handlers run
-- one at a time, and only the goroutines that see processes exit write to the store during a wait.
-- The source takes no lock, so that handlers may overlap; Runtime.Overlap models that where it
-- matters most, for CreateContainer, whose writes go by a record that it read before. Integers are
-- ranges of ℤ, which the JSON layer checks as encoding/json does. A Go map of texts is an association
-- list, in any one order.
--
-- Not modelled: the bytes that the streaming server copies between a client and a process or a port,
-- which are loops of libraries; the servers of Kubernetes and of gRPC,
-- which are parameters or left out; the debug handlers of procri/cmd/procri; overlaps of other pairs
-- of handlers; a write to a log file that fails, which the source ignores; and the scripts and
-- templates that provision machines.
pub mod Base
pub mod Path
pub mod Json
pub mod Disk
pub mod Image
pub mod Runtime
pub mod Streaming
pub mod Server
