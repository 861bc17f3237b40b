-- ===== src/Lib.antt =====
-- A model of the GitHub Actions runner scale set controller for Oxide, and what holds of it.
--
-- The program keeps a GitHub runner scale set supplied with runners, each of them an Oxide instance
-- with a boot disk that takes one job. A listener of the GitHub client calls back into the scaler,
-- which only records the demand and the job events; the loop of the scaler then reconciles. One
-- reconciliation works the recorded events off, rebuilds its view of the runners from two listings of
-- Oxide, marks runners for teardown, takes back runners whose scale down can still be canceled, drives
-- every teardown one step further, and creates or marks runners until their number meets the target.
--
-- Which file models what (paths of the program are from the repository's root):
--   AppConfig          the configuration file, its fallbacks and validation, and what ScaleSetClient
--                      asks for (internal/config/config.go)
--   Controller         runListenerAndScaler as a step relation, and the end of Run (controller.go)
--   Controller/Start   newController, newScaler, Run (controller.go), and run of main.go
--   Version            getBuildInfo (version.go)
--   ScaleSet           ensureScaleSet, sameLabelNames (scaleset.go); the client's answers are functions of
--                      the arguments
--   Scaler/Runner      internal/scaler/runner.go and the teardown state of teardown.go
--   Scaler/World       the state of a Scaler (scaler.go), its clients, the clock, the scheduler
--   Scaler/Create      New (scaler.go)
--   Scaler/Names       namePrefix, newRunnerName
--   Scaler/Teardown    teardown and its calls (teardown.go); one function for each stretch between
--                      two guards, called in the order of the source
--   Scaler/Mark        markForTeardown and the three marking loops (teardown.go)
--   Scaler/Handler     the callbacks, the inbox and processJobEvents (handler.go)
--   Scaler/Provision   provisionRunners, createInstance, fetchImage (provision.go)
--   Scaler/Capacity    scaleUp, scaleDown, cancelPendingScaleDowns (capacity.go)
--   Scaler/Observe     observeRunners and the two listings (reconcile.go)
--   Scaler/Reconcile   reconcile (reconcile.go)
--   Scaler/Run         Run (reconcile.go) beside the callbacks, as the steps of one system
--   Scaler/Config      the configuration of a scaler and its validation (internal/scaler/config.go)
--   GoMap, GoStrings,  what the source uses of Go's maps, strings and times, and the data of the
--   GoTime, Api        clients
-- The modules below these prove what their names say; Tests holds instances and runs.
--
-- How the code is read. A method that changes its receiver returns the new value. `map[string]*runner`
-- is an association list, and a runner that a pointer shares is looked up and written back under its
-- name. A loop over that map visits it in the order that `World.range` gives, which the theorems take
-- as any order that visits every entry once; loops whose steps do not touch each other keep the list's
-- order. Calls of the clients and of the clock are functions of the log of all calls so far, so a
-- theorem over all worlds holds for every behaviour of GitHub, Oxide and the clock, and its conclusions
-- can speak of the calls that were made. The goroutines of provisionRunners are workers that take
-- steps under a schedule and share the number of items in the channel
-- `semaphore`; the rest of a batch runs in two passes of three steps for each worker, which
-- Scaler/Provision/Finish shows to be enough, so every interleaving is the run of some schedule.
-- The names of a batch are drawn before its goroutines start.
--
-- Numbers. Counts are natural numbers; the desired count, scale set ids and limits given by the user
-- are signed. The sum in the target and the sizes in bytes wrap around at 64 bits as in Go. Times are
-- nanoseconds since Go's zero time; see GoTime for durations.
-- Sorting by age is an insertion sort over the order of the loop, which is any: the order that Go
-- leaves open among equal ages. Where a creation time is missing the comparison of the source is no
-- order, and Go may leave another result.
--
-- Not modelled: logging; contexts and timeouts (a canceled call is a failed call); SHA-256, base64 and
-- random bytes, which are parameters; the Oxide and GitHub client libraries, which answer as they like;
-- in the configuration, YAML decoding, url.Parse, the GitHub library's validation of an App and the
-- table of lower case letters beyond ASCII, which are parameters; flags and signals.
mod Prelude
pub mod GoMap
pub mod GoStrings
pub mod GoTime
pub mod Api
pub mod AppConfig
pub mod Controller
pub mod ScaleSet
pub mod Scaler
pub mod Version
mod Tests
