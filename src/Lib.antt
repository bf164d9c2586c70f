-- ===== src/Lib.antt =====
-- winunitd runs Windows background applications from declarative unit files. This library models
-- the logic at its core and proves that it is right.
--
-- The program and its model:
-- * `Unit` is the package internal/unit. `Unit.Name` (path.go) normalises unit names and checks
--   file names. `Unit.Ini` (ini.go) reads the lines, sections and directives of a unit file.
--   `Unit.Command` (exec.go) splits command lines, `Unit.Environment` (env.go) reads assignments,
--   `Unit.Limits` (resource.go) reads resource limits, and `Unit.Account` (user.go)
--   checks the account that processes run as.
-- * `Core` is the package internal/core. `Core.Names` (names.go) keeps lists of names without
--   duplicates. `Core.StartLimit` (startlimit.go) counts starts in a window. `Core.Restart`
--   (restart.go) has the restart policies and the reasons that status shows. `Core.Lifecycle`
--   (state.go) is the closed table of lifecycle transitions. `Core.Graph` (graph.go) builds the
--   dependency graph from the units, and `Core.Graph.Closures` walks it backwards. `Core.Cycle`
--   (graph.go, `findCycle`) searches the ordering for a cycle. `Core.Transaction` (transaction.go)
--   plans starts, stops and shutdowns over the graph, and asks `Core.Cycle` to validate each plan.
--   `Core.Execute` (execute.go) runs a plan: a run is a sequence of moves (a round of launches, a
--   cancellation, the delivery of the result of one adapter call) that comes from outside, so what
--   is proved holds for every order in which the calls of the goroutines end.
-- * `Manager` is the package internal/manager. `Manager.StartGate` (lifecycle_launch.go) applies
--   the start limit of `Core.StartLimit` when a launch is accepted (`acceptLaunch`), and records
--   the start (`recordServiceLaunch`) in a step of its own, which comes later or never.
--   `Manager.Backoff` (restart_backoff.go) is the delay before an automatic restart.
--   `Manager.Operations` (operations.go) is the record of what clients have asked for.
-- * `Journal` is the package internal/journal. `Journal.Fragments`
--   (fragments.go) cuts output into messages. `Journal.FairQueue` (fair_queue.go) queues captured
--   records between the services and the one writer, with limits on all and on each group.
--   `Journal.Buffer` (buffer.go) holds complete records until the writer, which may fail or take a
--   part, has taken all their bytes. `Journal.Name` (name.go) names the file of a unit.
--   `Journal.Statistics` (retention.go) counts what was lost.
-- * `Notify.Protocol` (internal/notify/protocol.go) reads and writes what a service tells its
--   manager.
-- * `Servicing` is the package internal/servicing. `Servicing.Release` (release.go) reads and
--   compares releases, and `Servicing.Floor` (floor.go) decides whether a build meets the floor.
-- * `Timers` is the package internal/timers. `Timers.Schedule` (schedule.go) chooses the next
--   deadline of a timer, by the wall clock and in all, and records that one was used.
-- * `Common` has the texts, numbers and lists that the others share.
--
-- How the code is modelled: a function of the program is a function here, named as there in this
-- language's spelling. A string is a list of bytes; letters and spaces are those of ASCII. A map
-- is an association list or a function, and a loop over a map takes its entries in the order of
-- that list, so what is proved for every list holds for every order of the loop. An error is a
-- value. A duration is an integer of nanoseconds, and an instant a natural number of them. A nil
-- `*Graph`, `*Unit` or `*Transaction` as a receiver is not modelled; a nil unit given to `Build`
-- is.
--
-- Fuel: the depth-first search of `findCycle` has as much as there are names, and each nested call
-- paints one of them; `add` and the two closures have one round more than the graph has nodes, and
-- each nested call adds one. `reconstructCycle` ends by its own test within `len(parent) + 2`
-- rounds. A search or plan that ran out of fuel would be `out_of_fuel` or `no_fuel`, which the
-- program has not. `markFailed` has one round more than the plan has jobs, and each nested call
-- fails one. `makeCaptureRoomLocked` has one round more than the queue counts records, and each
-- round evicts one (`make_room_ends` in Journal/FairQueue/Room.antt).
--
-- Not modelled: most directives of unit files, the calendars and the engine of the timers, the
-- storage of the journal, processes, pipes, sessions and all else that calls Windows; the messages of
-- errors; the third-party code.
pub mod Common
pub mod Unit
pub mod Core
pub mod Manager
pub mod Journal
pub mod Timers
pub mod Servicing
pub mod Notify
mod Tests
