-- ===== src/Lib.antt =====
-- The Session Affinity Engine: a load balancer that keeps each client session, named by its 5-tuple, on
-- one backend server. A request comes to a LoadBalancer, which validates it (Security), counts it
-- (RateLimiter), asks the SessionManager for its backend and hands it to that RequestHandler. The
-- SessionManager keeps the table of sessions and takes new backends from the ConsistentHashRing. A primary
-- and a standby LoadBalancer share all these components; main1.cpp serves UDP packets with the two, and
-- main.cpp demonstrates all of them on generated traffic. Logger keeps the two log files.
--
-- Each file models the code of the same name; a directory of the same name holds its lemmas and theorems,
-- and its Examples the tests and the theorems at concrete inputs.
--   FiveTuple       src/common.h: FiveTuple (toKey as to_key, serialize, deserialize, operator== as
--                   tuple_eq), RequestStatus, statusToString, PathHistoryEntry
--   Ring            src/consistent_hash.{h,cpp}: ConsistentHashRing; Ring/Hash is hashKey, and
--                   Ring/OrderedMap is std::map
--   RateLimiter     src/rate_limiter.{h,cpp}
--   Security        src/security.{h,cpp}
--   Sessions        src/session_manager.{h,cpp}: routeRequest, forceReassign, blockSession,
--                   setSessionExpiry, getPathHistory; Sessions/Passes has the methods that go through the
--                   whole table: activeSessionCount, getAllSessions, handleServerDown, cleanupExpired
--   RequestHandler  src/request_handler.{h,cpp}
--   LoadBalancer    src/load_balancer.{h,cpp}: handleRequest with its early returns (dispatch is its
--                   fourth step and the rest, forward the fifth, retry the failover inside it)
--   Server          src/main1.cpp: the start (boot) and one round of the loop (serve); Server/Process is the
--                   program around them, with what it sends, prints and logs
--   Logger          src/logger.{h,cpp}: init, shutdown, logRequest, logSystem
--   Simulation      src/main.cpp: the programs over a World and their steps; Simulation/Arguments is
--                   parseArgs, Simulation/Traffic generateTestTuples and Simulation/Twister its
--                   std::mt19937, Simulation/Clients, Policies and Report the tests of runSimulation (1 to
--                   4, 5 to 8, the rest), and Simulation/Program runSimulation and main
--   Config          config.h
-- Base, Text, Dict and Window hold what these share: native numbers, lists, strings as lists of bytes with
-- std::to_string, std::stoi and std::getline, association lists for std::unordered_map, and the sliding
-- window of stamped items.
--
-- State is a record, and a method a function from the state and its arguments to the new state and the
-- result. A method that reads a clock takes what it reads as an argument, one for each reading: numbers of
-- nanoseconds for the steady clock, texts for the wall clock. The clocks are otherwise free; a theorem that
-- needs them to be in order says so. A difference of readings stops at 0, which fails the same tests as a
-- negative one. An out-parameter is an argument and a component of the result. Server
-- ids are numbers, and -1 is `none`. The methods of the shared components hold their mutex throughout, so
-- that calls of them come one after another.
--
-- The hash wraps at 2 ^ 64 and extends the sign of a byte, as on x86-64. Ports are numbers; the
-- operations that write them keep them below 2 ^ 16. Counters and sizes that are `int`s in the source are
-- numbers: they do not run out here. std::to_string runs on n + 1 rounds for n, which is enough since
-- each divides by ten. All other loops are structural.
--
-- The demonstration is a program over a World, which holds the components and the text printed so far. The
-- n-th of its calls that reads the clocks takes the n-th Readings of a stream. A program gives `none` for
-- undefined behaviour. parseArgs runs on as many rounds as there are arguments, the program's name
-- included, and one more, which is enough since each round passes an argument.
--
-- Not modelled: the calls of the logger inside the components, which change nothing else; what goes to the
-- standard error stream; the socket calls of main1.cpp, whose answers are arguments; the hash of a FiveTuple
-- and Logger::isEnabled, which nothing uses; exceptions that no code throws itself (std::bad_alloc); and other
-- threads between the steps of one handleRequest.
pub mod Base
pub mod Text
pub mod FiveTuple
pub mod Ring
pub mod Dict
pub mod Window
pub mod RateLimiter
pub mod Config
pub mod Logger
pub mod Security
pub mod Sessions
pub mod RequestHandler
pub mod LoadBalancer
pub mod Server
pub mod Simulation
