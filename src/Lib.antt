-- ===== src/Lib.antt =====
-- ydbops restarts the nodes of a YDB cluster one after the other, or many at once, as the cluster
-- management system (CMS) allows. This library models the part of it that decides what happens.
--
-- The parts and their files:
--   Base         numbers, text and list helpers; Go's int where it may be negative or wrap around
--   Collections  internal/collections/collections.go, with Go maps as lists of entries
--   Cluster      the messages of the maintenance service, as far as the program reads them
--   Versions     pkg/options/types.go, parseVersionFlag of pkg/options/targeting.go, and
--                ParseMajorMinorPatchFromVersion of pkg/utils/utils.go
--   Restarters   pkg/rolling/restarters: which nodes each restarter selects (Filter) and what it
--                runs to restart one (RestartNode); children for the filters of primitives.go, for
--                Kubernetes and for SSH
--   Hosts        pkg/utils/utils.go: ParseSSHArgs, GetNodeFQDNs, GetNodeIds,
--                PopulateTenantToNodesMapping
--   Retries      pkg/utils/retries.go: WrapWithRetries
--   Cms          pkg/client/cms: executeMaintenanceOperation, action groups, CompleteActions; Client
--                has the operations of the client over the services
--   Connections  pkg/client/connectionsfactory: what grpc.Dial is given
--   Discovery    pkg/client/discovery/discovery.go
--   Credentials  pkg/client/auth: the choice of a provider of credentials; Providers has what each of
--                them does
--   Rolling      pkg/rolling/rolling.go: State has the state of a restart and the handling of
--                statuses, Actions one pass (processActionGroupStates), Compat the check of
--                versions, Start what comes before the loop (DoRestart), Loop cmsWaitingLoop,
--                Execute the whole; Handler has pkg/rolling/restart_handler.go and dispatchAll, as
--                steps of workers in any order, and Tenants dispatchByTenant, whose handlers step
--                side by side
--   Options      Validate of pkg/options/targeting.go, and that and GetRestartDuration of
--                pkg/rolling/options.go; Auth and Grpc have Validate of pkg/options/auth.go and
--                pkg/options/grpc.go
--   Profile      pkg/profile/profile.go
--   Commands     cmd/restart, cmd/run and cmd/maintenance: which restarters run in which order, and
--                what the maintenance commands ask of CMS
--
-- How they interact: Start asks CMS for nodes, builds the state, drops the user's earlier tasks and
-- lets a restarter select nodes by its filters, which use Versions and Hosts. The loop then runs a pass
-- over each refreshed task: groups that CMS has performed and that no earlier pass has finished go
-- to restart handlers in batches, their statuses come back in some order, and what is finished is
-- reported by CompleteAction. A handler's workers send those statuses. Calls of CMS go through Retries.
-- Commands start the restarts, behind options that Profile fills and Options validates; Connections and
-- Credentials stand on the validated ones.
--
-- Correspondence: a function of the program is a definition with its name in snake case. State that
-- the program mutates is passed on; an error is a value of a sum type, and a panic is a result of
-- Outcome. The statuses of concurrent restarts are an argument of a pass, as the sequence in which
-- handleRestartStatus takes them, since the mutex makes each of them one step. Numbers are natural
-- numbers; where an int may be negative or wrap around it is an integer with its 64 bits written out.
-- The steps of a restart handler are a relation between its states, in which a push and the receive of
-- it are one step, since the queue has no buffer. There is no fuel: every loop is recursion on a list
-- or on a number of attempts, and cmsWaitingLoop, which need not end, runs over what its rounds meet
-- and returns waiting when they are used up.
--
-- Parameters, as code from elsewhere: the replies of CMS and of the Kubernetes API, url.Parse,
-- time.Parse, YAML, files and the environment, pools of certificates, the clients of IAM and of the
-- metadata service, gRPC's status package, the unpacking of a result, sort.Slice,
-- the rounded quotient of two floating-point numbers, and what Go's runtime allows: the largest channel
-- that it makes, and whether the runes of a token can be sliced to 20.
--
-- Not modelled: log lines and what the commands print, the flags and the help of the command line
-- (cobra), the dial of a connection, the handler of signals of Execute, which cancels its context, the
-- panic on a group with no action state, and the loop over a range of node ids whose end is the largest
-- int, which goes on for ever where the model has a long list.
pub mod Base
pub mod Collections
pub mod Cluster
pub mod Versions
pub mod Restarters
pub mod Hosts
pub mod Retries
pub mod Cms
pub mod Connections
pub mod Discovery
pub mod Credentials
pub mod Rolling
pub mod Options
pub mod Profile
pub mod Commands
