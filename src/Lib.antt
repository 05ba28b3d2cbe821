-- ===== src/Lib.antt =====
-- kubeip: an agent that runs on a Kubernetes node and gives the node a static public IP address.
--
-- The parts and how they interact. `run` of cmd/main.go reads the node through the explorer, makes
-- the assigner of the node's cloud, and calls it under a lock that is shared by all nodes of the
-- cluster, again and again until an address is given or the attempts are used up. With a taint key
-- it then waits for the node to report the address and removes the taint. Then it waits for the
-- signal to end, and may release the address.
--
-- The files:
--   Base        shared names; Base/Effects is how a Go function ends (a value, an error, a panic) and
--               the effects on an outside world of any type; Base/Dict and Base/Text are Go's maps
--               and the functions of its package strings that are called; Base/Inversion says what
--               the parts of a sequence did
--   Types       internal/types/node.go; Types/Filters is internal/types/filters.go
--   Kube        the Kubernetes API as it is called, a parameter
--   Node        Node/Explorer is internal/node/explorer.go (`getInstance` is get_instance, `GetNode`
--               is get_node), Node/Tainter is internal/node/tainter.go
--   Cloud       internal/cloud: Cloud/Aws, Cloud/Gcp and Cloud/Oci hold each cloud's interfaces and
--               their implementations over that cloud's client, a parameter
--   Address     internal/address: Address/Interface is assigner.go and azure.go; Address/Aws with
--               Filter and Sort is aws.go; Address/Gcp with Parts and Tries is gcp.go; Address/Oci is
--               oci.go
--   Config      internal/config/config.go
--   Lease       internal/lease/lock.go: the try inside `Lock` is try_lock, a tick of the renewal is
--               renew_tick; LockWorld keeps which renewals run and which one the lock can cancel.
--               Lease/Steps is the same call by call, Lease/Cluster many agents and renewals on one
--               lease, with the store of which only documented behaviour is used
--   Cli         cmd/main.go: the flags, the logger's level and `main`
--   Agent       cmd/main.go: the loops are assign_from and wait_reported_from, the closure with the
--               deferred unlock is locked_assign, and `run` is run. Agent/Wiring puts the parts of
--               the repository in the places that run has for them
--   Tests       runs on concrete data
-- The theorems are in the files Laws, and in Retry, Taint, Failures, Stages, Guarded and Wiring
-- below Agent, Provider and Description below Node/Explorer, Release, Progress and Cluster below
-- Lease, Primary, Choice, Faults and Release below Address/Aws, Choice, Assignment, Requests,
-- Retries, Users, Pages, Waits and Release below Address/Gcp, and Choice, Cases and Release below
-- Address/Oci.
--
-- The model. A function with effects takes the outside world and gives its ending with the new
-- world. Clients of clouds and of Kubernetes, the clock, the ticker, the file system and the
-- context are parameters. A nil pointer is `none`, and reading through it is `panic`. Errors keep
-- the chain of messages and the sentinel that `errors.Is` looks for. Durations and counts are
-- natural numbers; the seconds of a lease keep their 32 bits.
--
-- Bounds and fuel. The retry loops of the agent count down `RetryAttempts + 1` rounds, which is
-- how often the Go loops run for a count that is not negative, and the ephemeral address of GCP is
-- tried `maxRetries` times. The wait for a GCP operation and the list of GCP addresses end when
-- the outside says so: they take fuel, and running out of it is an ending of its own, `unfinished`.
-- `sort.Slice` is the insertion sort that Go uses for at most twelve elements; for more, the order
-- among equal keys can be another. A lease's age is compared in microseconds without the wrap-around
-- of a `time.Duration` of more than 292 years.
--
-- Not modelled: the help texts and the version printer of cmd/main.go, log lines other than those that
-- read through a pointer, the generated mocks, the chart and the Terraform examples. `Lock` and the
-- renewal are stated both as whole functions and call by call, where the calls of many agents and of
-- their renewals come in any order; an agent may stop anywhere, and a renewal may start at any time,
-- which is more than the program does. In Agent/Wiring the agent runs alone: other agents and its own
-- renewals take no steps there, and the lock's state is part of the world. A lease duration that is not
-- positive makes the ticker of a renewal panic: that is in renew_lease_periodically, but the start of
-- a renewal does not end the process of the lock that starts it. A failed call of the store may have had its effect.
pub mod Base
pub mod Types
pub mod Kube
pub mod Node
pub mod Cloud
pub mod Address
pub mod Config
pub mod Lease
pub mod Agent
pub mod Cli
pub mod Tests
