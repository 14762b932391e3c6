-- ===== src/Lib.antt =====
-- tor-country-manager runs one Tor process for each country and puts a SOCKS proxy in front of each,
-- under a web interface. This library models its Go code; the paths below are the repository's.
--
-- The parts and their files:
--   Shared      texts as lists of bytes, 64-bit integers, association lists, sorting, and tests.
--   Config      config.go: the configuration, its default values and `loadConfig`, `normalizeCode`,
--               `countryPort`, `validate`. What `net.ParseIP` and `net.SplitHostPort` say is a
--               parameter (`NetLib`).
--   Auth        auth.go: the password, sessions, and the throttling of logins. HMAC-SHA-256 and base64
--               are a parameter (`CryptoLib`). `Throttle`, `Roundtrip` and `Refines` prove.
--   Socks       socks5.go and `negotiateClientAuth` of client_routes.go, over the bytes received.
--   Catalog     catalog.go: `Nodes` the order of the exit nodes and `SelectNode`, `Policy` the ports of an
--               exit policy, `Names` continents and names, `Refresh` the refresh and its filter,
--               `Countries` and the latency checks. `Best`, `Ranges`, `Sound` and `Counts` prove.
--   Manager     manager.go: the instances and their processes. `Defs` holds the state, `Persist` the
--               state file, `Start` `Start`, `makeRoom` and `Activate`, `Stop` stopping and draining,
--               `Traffic` the counting of connections, `Ready` the waiting for a first circuit,
--               `ExitLookup` what two services say of an exit's address,
--               `Watch` the supervision of a process and its restarts, `Replace` the change of a
--               running country to another exit node, `Nodes` the choice of a node, `NewManager`,
--               `Restore` and the views, `Limits` `UpdateMaxRunning` and `Shutdown`, `Control` the
--               texts for Tor and its answers, `Upstream` the change of the proxy in front of Tor,
--               `System` all of them as the steps of one machine.
--   Health      health.go: `Monitor` what the monitor does with the result of a probe, `Round` a round
--               of probes, `Report` the report. `Pause`, `Rounds` and `Reports` prove.
--   Settings    settings.go: the updates of the configuration and its views; the bearer token.
--   Files       replace_file_unix.go, and how settings.go and manager.go save a file: the changes on disk
--               as a list, which may be cut off anywhere. `Atomic` and `Unnoticed` prove.
--   Server      main.go, client_routes.go, proxy.go: `Proxies` the listeners of the countries and one
--               proxied connection, `Routing` the table of routes and the paths, `State` what the
--               handlers share, a request and a response, `Handlers` the handlers, `Serve` `authAPI`
--               in front of them. `Guards`, `Strangers`, `Guesses` and `Connections`
--               prove.
--   Manager/Calm, Manager/Steps, Manager/Ordered, Manager/Counters, Manager/Restarts, Manager/Lost,
--               Manager/Draining, Manager/Down, Manager/Running, Manager/Reserve, Manager/Logs and
--               Manager/Applied are about what those operations keep and give. `Steps` is the
--               induction on histories: what survives the few elementary changes of the state
--               survives every event.
--
-- How the code is rendered. A pointer to an instance is its number in a heap (`Manager.heap`), so
-- that what the code shares is shared. A Go map is an association list. Each critical section of a
-- goroutine is one function; each section of `watch` and of `runAutoRestart` is an event of `System`,
-- and so is each of `startNode`, which is also a function as a whole, as the handlers call it. A loop
-- that waits is a function for one round: what it reads from
-- the clock, the network or the system (a timeout, a dialled connection, a started process) is an
-- argument. What a goroutine does later is an entry of `Manager.tasks` and an `Event` that any
-- history may contain at any place, so that the theorems on histories hold for every order.
-- A process is the number that `exec.Cmd` got; the signals sent and the contexts cancelled are lists.
-- The state file is what can be read from it; how it comes there is the subject of Files.
--
-- Fuel. The digits of n are computed on n + 1 rounds, of which there are fewer digits; the loop that
-- reserves a port has the source's own bound of tries.
--
-- Strings are bytes, and case and white space are those of ASCII; in the names of countries and
-- continents, which are not ASCII, a string is its code points, which stand in the order of the bytes.
-- An `int` is ℤ with the wrap-around of 64 bits in its sums; times are numbers.
--
-- A request is handled as one step (`Server.Serve.serve`); what it meets outside while it is handled,
-- from the clock to the exit directory, is a record (`World`). The segments of its path are given
-- unescaped, as `net/http` takes the path apart, and the decoder of JSON is a parameter (`JsonLib`).
--
-- Not modelled: `main` itself, with its sockets, timeouts and signals; `writeExampleConfig`; the
-- removal of directories; the security headers and the embedded assets; `secureRequest` and the other
-- attributes of the cookie; reading and writing JSON; the copying of bytes between connections; and
-- the iteration order of Go's maps, for which the association lists take one order. All of these are
-- input and output over the operations modelled.
pub mod Shared
pub mod Config
pub mod Auth
pub mod Socks
pub mod Catalog
pub mod Manager
pub mod Health
pub mod Files
pub mod Settings
pub mod Server
