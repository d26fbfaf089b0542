-- ===== src/Lib.antt =====
-- The Open Connector Framework's two services and their libraries (k8s/ of this repository): the
-- connection manager, k8s/service/acm, which runs connectors as Kubernetes pods, and the image
-- manager, k8s/service/aim, which puts the images of connectors into a registry.
--
-- The parts, and how they work together
--
-- A client deploys a pod and then waits for it. For each pod three coroutines run. The event
-- watcher (event_watcher.rs) follows the pod's events, which the state machine of watcher.rs makes
-- of lists and watches of the Kubernetes API. When the pod runs it starts the garbage collector and
-- a health check, and sends the outcome of the check towards the client; when the pod ends, or
-- anything fails, it tells the garbage collector to stop, and deletes the pod. The garbage collector
-- (garbage_collector.rs) deletes the pod when its ticket runs out; a client refreshes the ticket.
-- The shim of external_handle.rs keeps the outcome until the client comes. podmanager/mod.rs has
-- the cache of all of them.
--
-- An image is uploaded to the image manager, which imports it into a containerd namespace of its
-- own, retags it and pushes it, each by a command of k8s/library/os. Temporary images and the
-- namespace are removed by tasks that start when they go out of scope.
--
-- The files
--
--   Prelude and its children: shared types, tests, texts, lists, results and decimal numbers.
--     A Rust string is a list of code points, `len` its length in bytes of UTF-8. `Run` is a call that
--     may panic, `Result` std's.
--   Errors: k8s/library/error and k8s/library/result. An error is its kind, code, message and
--     cause. The structs with derived errors are constants and functions in the modules named Errors
--     (Acm/Errors, Acm/EventWatcher/Errors, Aim/Errors, K8s/Pod/Errors, Os/Errors), which have the
--     derived kind, the code of their attribute, the formatted message and the source.
--   Names: k8s/library/names/src/lib.rs, with `rfc1035_label` and `rfc1123_subdomain`.
--   K8s/Objects: the fields of the k8s_openapi objects that the program reads. K8s/Failures:
--     k8s/library/k8s/src/errors.rs. K8s/Pod: `PodExt` of k8s/library/k8s/src/pod.rs. K8s/Watcher:
--     k8s/library/k8s/src/watcher.rs, where `step_trampolined`, `step` and `watcher` have the
--     names of the code, and the API server with the open stream is a world `W` that each call
--     changes.
--   Backoff: the retry policy of the backoff crate, a parameter: its operations, of which nothing is
--     assumed unless a theorem says so.
--   Acm/EventWatcher: k8s/service/acm/src/podmanager/event_watcher.rs. The `watch` of the code is a
--     step function: each `await` on a stream or a channel takes one input, `Phase` says in which loop
--     the coroutine stands, and each call that others can see is an action in the log. The panics of
--     `client::new()` and of the stream are inputs and flags of an input.
--   Acm/GarbageCollector: garbage_collector.rs, in the same way; an input is a branch of its
--     `select!`. The two clocks are parameters.
--   Acm/ServerCheck: server_check.rs; a round of its loop is how its two `select!`s end.
--     Acm/Readiness: the event watcher and the health check that it starts, side by side.
--   Acm/Handle: external_handle.rs. Acm/PodManager: the cache of podmanager/mod.rs. Acm/System: the
--     three coroutines of a pod with their channels, as a step relation in which any of them may move
--     next. Acm/Managers: all managers with the cache, where the coroutines of each and the two tasks
--     that write to the cache interleave. Acm/Adoption: adoption.rs.
--   Os: k8s/library/os/src/process.rs, and the `Secret` of k8s/service/aim/src/env/mod.rs.
--   Acm/Endpoints: the handlers of k8s/service/acm/src/main.rs. Acm/Desync and Acm/Orphans: the event
--     watcher together with the watcher of objects, and with the garbage collector.
--   K8s/Deploy: `deploy` and `delete` of k8s/library/k8s/src/lib.rs, and `pod::new`. The JSON that is
--     built is a value of Json. Web: the answers of k8s/library/response and k8s/library/error.
--   Calls: what `?` makes of calls that change a state, may fail and may panic.
--   Aim/Env: k8s/service/aim/src/env/mod.rs. Aim/Metadata and Aim/Containerd:
--     k8s/service/aim/src/registry/containerd, with the credentials of registry/ecr/mod.rs and the
--     choice of the registry of registry/mod.rs. Aim/Ecr, Aim/Minikube and Aim/Registry: the other
--     operations of k8s/service/aim/src/registry; Aim/Outside has what they ask of the outside.
--   Aim/Endpoints: the handlers of k8s/service/aim/src/main.rs, and `import` of registry/mod.rs;
--     Start has the service as a function from requests to answers. Aim/Registry/Contents: the
--     registry of ECR as a list of images, where its commands go well;
--     Aim/Registry/Manifests: the one of Minikube as a function from tags to manifests.
--   Aim/Drops: the tasks of tmp_image.rs and namespace.rs that remove what was dropped.
--   Derive: the macros of k8s/library/kind-derive, httpcode-derive and error-derive, from the parsed
--     item to the implementation that they write, and the kinds of k8s/library/kind.
--   Examples: runs at concrete inputs.
--
-- Bounds and fuel
--
-- `step` of K8s/Watcher loops until a round gives a result; it runs on fuel, and two rounds for
-- each answer of the stream that gives nothing, and two more, are enough. `decimal` runs on the
-- number itself, which is enough since each round divides it by ten. Times are numbers of seconds;
-- the additions of the clocks may panic, and the conversion of a time to live to i64 wraps. Ports
-- are natural numbers.
--
-- Not modelled
--
-- Log lines and their colors, the streaming of logs and the start of the web frameworks are left
-- out, as are the parsing and the printing of tokens by syn and quote around the derive macros, the
-- charts, the scripts and the build. A panic of a handler ends its request; what the web framework
-- answers then is its own affair.
pub mod Prelude
pub mod Names
pub mod Errors
pub mod K8s
pub mod Os
pub mod Aim
pub mod Acm
pub mod Backoff
pub mod Web
pub mod Json
pub mod Calls
pub mod Derive
mod Examples
