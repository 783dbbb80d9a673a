-- ===== src/Lib.antt =====
-- A model of the system manager of mncOS: the daemon that keeps the configuration of the device, its
-- network transactions and its power jobs, with the validation, logging and access control that it
-- uses. Paths are from the root of the repository; `source` is
-- meta-mncos/recipes-support/mnc-system/files/source.
--
-- Parts:
--   Base        Booleans, lists and texts. A text is a native string of code points; `size` counts the
--               bytes of its UTF-8 form, and the classes of characters are those of the "C" locale.
--   System      source/common/mnc/system/system.hpp: configurations, transactions, jobs and errors. A
--               function of the source that throws `Error` returns a `Result`.
--   Validation  source/common/mnc/system/validation.cpp: `validate`, `validateNetwork`,
--               `validNtpServer`, `validInterfaceName`, `ipv4`. Loops over a text recurse on fuel, its
--               length, and each round takes at least one character. 32-bit arithmetic keeps its
--               wrap-around; masks are quotients and remainders by powers of two.
--   Logging     source/common/mnc/logging/logging.cpp: priorities, checks of fields and events, and
--               the records that the developer and user logs give to their sink.
--               Journal: source/common/mnc/logging/journal_reader.cpp, the decoding of an entry, the
--               pages of a query, `JournalReader::read` and `follow` over the answers of sd_journal and of
--               the handler, and entries as JSON. The names of changed fields are kept as lists of
--               characters. The loops of `read` take fuel; the number of the entries bounds it. The loop
--               of `follow` is endless, and its fuel is the number of its rounds that are looked at.
--   Access      source/daemon/access_policy.hpp, source/common/mnc/system/audit.hpp, and the handler
--               `Daemon::request` of source/daemon/main.cpp, without its log records. The JSON library
--               and the operations that only read the platform are a parameter, `Codec`.
--   Backend     source/daemon/backend.hpp and source/daemon/storage.cpp from the constructor on: the
--               class `Backend`. A method is a state transformer over the members that change, which
--               may throw and keeps what it wrote until then. Each call outside (the virtual methods
--               of `Platform`, files, hashes, the clock, random ids, the audit sink) is an `Effect`
--               in a history, newest first, and a `Host` answers it as a function of that history,
--               so it may fail at any point and change between any two calls. The journal is
--               the last state whose write the host acknowledged: a write that fails is taken not to
--               have replaced the file. 64-bit times are taken modulo 2 ^ 64.
--                 Journal   persist, pending, idle, checkId, event
--                 Observe   observeNetwork
--                 Settle    settleNetwork, recoverNetwork
--                 Tick      tick
--                 Apply     apply
--                 Network   beginNetwork, networkTransaction, prepareNetworkCommit, finishNetwork
--                 Jobs      power, resetDevice, job
--                 Boot      the constructor, bootstrap, start
--                 Load      loadBootPreferences, on what lstat and the JSON library answer
--                 Render    renderNetwork of source/daemon/network_config.cpp
--                 Calls     any sequence of the requests and ticks
--                 Machine   an abstract machine of network transactions
--   Services    source/common/mnc/service: `ServiceManager` over any unit controller, whose answers
--               depend on the history of its calls, and `Service::execute` over the history of what
--               the process does. The recursion on dependencies and the loop of a service take fuel;
--               a rank of the dependencies, or the waits until the service is told to stop, bound it.
--   Clock       source/daemon/ptp.cpp: PTP interfaces and the units of each clock source.
--   Platform    source/daemon/backend.cpp and source/daemon/clock_config.cpp: how the class `Native`
--               checks and applies a configuration, over the history of what it asks the system for.
--               The polling of a unit takes fuel; the clock bounds it.
--   Files       source/daemon/storage.cpp, its first part: `readFile`, `atomicWrite`, `fileHash` and
--               `randomId`, over the history of the system calls. A file is a list of bytes. The loops
--               take fuel; the bytes to go, and the calls that may be interrupted, bound it.
--   Timezones   source/daemon/timezone_catalog.cpp: coordinates, zone.tab and the catalog. A coordinate
--               is its number of arc seconds.
--   Sysmon      meta-xilinx-addon/recipes-support/mnc-xilinx-sysmon/files/source/common/mnc/xilinx/sysmon:
--               `IioMonitor::readSnapshot`, over the history of what is read of sysfs. The doubles and
--               their operations are a parameter, `Reals`.
--   Tests       runs of the definitions, and the theorems at concrete inputs.
--
-- Validation is used by Backend and Logging by Access and Backend. The identity that Access computes
-- is the `actor` and `request_id` that `Access.Request` hands to Backend.
--
-- Files, Sysmon and the reading of the journal are methods of System.Trace: state passing over the
-- calls made so far, with exceptions. The journal of Backend is written by `atomicWrite` of Files.
--
-- Platform uses Clock for the units to switch, and Backend has the interface of Platform as `Host`.
--
-- Not modelled: the thread and the bus of source/daemon/main.cpp, what the native platform reads of the
-- system (discover, status, time and temperatures of source/daemon/backend.cpp), loadProfile of
-- source/daemon/storage.cpp, the sd-bus controller of the service manager and
-- the client. They are calls outside, or use the parts above.
pub mod Base
pub mod Services
pub mod Clock
pub mod Platform
pub mod System
pub mod Validation
pub mod Logging
pub mod Access
pub mod Backend
pub mod Files
pub mod Sysmon
pub mod Timezones
mod Tests
