-- ===== src/Lib.antt =====
-- A verification library for tug, a web framework in Go. It models the parts of it that keep state for
-- an app, in memory, and that its other parts build on:
--
--   * Queue (queue/): Queue/Job is the job of queue/store.go, and Queue/Memory the Store that keeps jobs
--     in memory, queue/queuetest/queuetest.go. A worker claims a job, runs it, and tells the Store how
--     it went. push, push_scheduled, push_unique, push_latest, hold_back, claim, done, retry, fail,
--     failed_jobs and run_again are Memory's methods PushScheduled, PushUnique and so on. Op is a call
--     of one of them and run a history of calls. Claims is about which job a claim returns, Holds about
--     how long it is held, Limits about AtOnce and OneAtATime, Ids and Keys about the jobs' IDs and keys,
--     and Stale and Late about late calls. Updates and Eased hold lemmas for them.
--     Queue/Worker is the worker of queue/queue.go: run_job and settle (run), held_for (held), hold and
--     drain (Drain) on that Store. Drains is about the end of Drain, and Rates about what a refused job
--     and a failed one wait for. drain is given rounds, one more than the jobs that are due being enough.
--     Queue/Handler is the handler of a kind and its options, and backoff; Queue/Kind is queue/kind.go with
--     carried of queue/carry.go and pushScheduled of queue/queue.go: handle, in_store, push_at and schedule
--     are Handle, In, PushAt and Schedule. Handles is about Handle, and Pushes about the jobs of kinds.
--     Queue/Schedule is clockAfter of queue/schedule.go on the calendar of Queue/Clock, and
--     Queue/Schedule/Fields parseCron. search is given 5,400,000 rounds, more than the minutes that are left
--     of nine years, so that they never run out. Steps and Skips are about the rounds, Rounds about what
--     is found, and Parses about a field's numbers.
--   * Cache (cache/): Cache/Memory is the store of cache/memory.go, with get, set, add, delete and
--     delete_if for its methods, and Cache/Lock the locks of cache/lock.go on that store: lock, try_lock,
--     wait and release are Cache.Lock, Try, Wait and Release. View and Refines compare the store with a
--     map that never sweeps, Sweeps bounds its size, and Exclusion is about locks.
--   * Auth (auth/): Auth/Throttle is a throttle of auth/throttle.go that counts in its own memory: try_key,
--     wait and clear are Throttle's Try, Wait and Clear, and hit, tries and clear_hash the memory's. Counts
--     is about how many tries it lets in. Auth/Cbor is the decoder of auth/cbor.go, decode_cbor, and the
--     writer of auth/passkeytest/passkeytest.go, cbor_append. RoundTrip reads back what the writer writes,
--     and Bounds is about any bytes. read_item is given how deep an item may nest, which is the code's limit.
--     Auth/TwoFactor is auth/twofactor.go: check, code and use_recovery_code are Check, Code and UseRecoveryCode.
--     Auth/Tokens is auth/tokens.go, make, check and sign, and Checks is about which tokens are good.
--     Codes is about an authenticator app's codes, and Recovery about recovery codes.
--   * Session is the Session of session/session.go, and Session/Store load, save and Middleware (serve),
--     whose Keeper is the store of Cache/Memory, which satisfies it. Reads is about the next request of a
--     visitor, and Rotates and Replays about an ID that a login or a logout leaves.
--   * Lang (lang/): Lang is lang/plural.go, with choose, interval and plural_index, and Lang/Numbers
--     lang/number.go, with grouped. Tags has the languages of each rule, and Grouped is about separators.
--   * Broadcast/Hub is the Hub of broadcast/broadcast.go on one instance: subscribe, drop, deliver and publish are
--     its methods, and Op is a thing that happens to it, such as a delivery or a receive by a subscriber.
--     Alone has what one subscriber sees of an operation, and InOrder is about the events that it gets.
--     Broadcast/Presence is localPresence of broadcast/presence.go: enter, keep, leave and here.
--     Hears is about what a channel is told, and Listed about who Here lists.
--   * Paginate is paginate.go: paginate, simple_paginate, page_window and span are Paginate, SimplePaginate,
--     pageWindow and span. Pages is about the items of the pages, Simple about SimplePaginate, and Window
--     about the links of a pager. The count and the fetch of the app, the links of net/url and what Atoi
--     reads are arguments; panics, errors and values are the constructors of Result.
--   * Links is links.go: absolute_url, signed_url, check_signed and sign_link are AbsoluteURL, SignedURL,
--     checkSigned and signLink, and Signed is about which signed links are good.
--   * Migrate is migrate/migrate.go: up, down and status are Up, Down and Status over the record Store, a
--     Store of the app's, and Migrate/Files has Load (load) and the parts of a file (split_file). Ups has the
--     promises of a Store (Keeps) and is about one run of Up, Again about the next, Downs about Down, and
--     Files/Loads about the files.
--   * Middleware/Proxies is middleware/proxies.go: trust_proxies is the handler of TrustProxies, and client,
--     contains, forwarded and parse_addr are the functions of those names. The record Net stands for
--     net/netip and strings. Spoofs is about what a client can write.
--   * Ulid is internal/ulid/ulid.go: next and valid are Next and Valid. Digits has the digits of an ID as
--     those of one number, Sorted is about the order of IDs, and Valid about which texts are IDs.
--   * Seal is internal/seal/seal.go: new_box, box_seal and box_open are New, Seal and Open of a Box. Rotates is
--     about a box whose keys have been rotated.
--   * Inertia/Props is the props of inertia/props.go: a Behavior is what each prop does, and Entries are the tree
--     of a page's props, with what reflection makes of a value, and with what the functions of props return.
--     Inertia/Notes is what the resolver is asked and notes: path_wanted is pathWanted, left_out is what
--     leftOutOfFirstLoad answers, and a Meta is what is noted for the client. Inertia/Resolver is the walk of the
--     tree: level is level and value. Named is about the deferred props that a full visit names, with Paths, Fetched,
--     Settles and Shows for it, and FirstLoads about what a full visit sends; Reaches is what every note keeps.
--   * Common holds the library's names, the Boolean tests, lists, strings, maps and integers.
--
-- How code is modelled. A method that runs under a mutex is one function from the state before to the
-- state after, and calls of several goroutines are a list in the order in which they take the mutex. A
-- time is a number of nanoseconds since Go's zero time, which is 0, and the clock's readings and the
-- contexts' ends are arguments. A string or a byte slice is a list of numbers, one for each byte. Go's
-- int is a natural number where the code counts up from 0, and an integer where it may be negative
-- (Attempts, a throttle's Max and Window, and what a count or a query gives). The code's counts stay far
-- below 64 bits; the pages of SimplePaginate, which a client picks, are kept to max_int by the code. A
-- map is a list of entries with a key each. Loops are structural recursions over the slices that they
-- go through; Wait of a lock goes over the rounds that it is given, and still waits after the last.
-- SHA-256 and random bytes are arguments of the definitions that use them.
--
-- Not modelled: the parsing of TrustProxies's settings; the clock of a time zone, and the macros of
-- a schedule; the goroutines of the queue's Run, and its observers; Remember of the cache; throttles, caches
-- and presences with a Store of the app's; pages by cursor; the checks of a passkey's answer; a Hub's Store;
-- what reflection makes of a page's props, the goroutines that resolve them, and the writing of the page;
-- the catalogs of languages; and the other packages (the other middleware, routing, binding, validation,
-- storage, mail, rendering, encryption, the command line, the site), some because they are input and
-- output or calls of other libraries.
pub mod Auth
pub mod Broadcast
pub mod Cache
pub mod Common
pub mod Inertia
pub mod Lang
pub mod Links
pub mod Middleware
pub mod Migrate
pub mod Paginate
pub mod Queue
pub mod Seal
pub mod Session
pub mod Ulid
