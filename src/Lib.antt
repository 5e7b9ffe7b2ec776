-- ===== src/Lib.antt =====
-- elchi-gslb: a CoreDNS plugin that answers for one zone from an in-memory cache of pre-built
-- resource records. It fills the cache from a controller by HTTP, with a snapshot first and checks
-- for changes by version hash after that, and takes updates and deletions by webhook.
--
-- The parts, and the files that model them:
--   Prelude      shared names: Boolean tests, equality as an instance (Eq), lists over native numbers,
--                and Go maps as association lists (Maps) with their laws.
--   Text         Go's package strings, on lists of code points. Laws, Trim and Suffix prove what the
--                rest needs.
--   Ip           net.ParseIP, IP.To4 and IP.String: the loops of Go's netip for both syntaxes. Round reads
--                what is printed of an IPv4 address.
--   Name         normalizeDomain and the zone test (cache.go).
--   Record       DNSRecord, DNSSnapshot (client.go), DeleteRecord, and the resource records of the dns
--                package; Record/Build is buildDNSRecords (cache.go).
--   Cache        RecordCache (cache.go): one function for each method, over the nested map of
--                Cache/Nested. Cache/Spec says what a record contributes to an answer with no cache
--                in sight; Replace and Merge prove the methods against it, Valid and Invariant their
--                validity, Keys that no key stands twice in a map, Count and Domains the counters, Listing,
--                Exact, Index and Listed what GetAllRecords lists, and Relist and Resent what becomes of a
--                listing that is sent back. Kept carries a property of the map from its writes to the
--                methods. View is the quotient by the zone, the version hash and what queries get, and
--                View/Laws has the equations of the methods there.
--   Client       ElchiClient (client.go): FetchSnapshot and CheckChanges as do blocks over their
--                errors; Client/Requests has what is sent, and when a snapshot is accepted.
--   Plugin       the fields of Elchi (elchi.go), SyncStatus (webhook.go) and the metrics (metrics.go).
--   Serve        ServeDNS (elchi.go). serve_dns_between has the cache at each of its two lookups.
--   Sync         InitClient and performSync (elchi.go). perform_sync_between has the plugin as it is when
--                the response arrives; Sync/Race says what is written meanwhile.
--   Webhook      the handlers, the middleware and the routes of webhook.go; Webhook/Http has the
--                requests and responses; Webhook/Torn has a write between the two reads of
--                handleRecords, and Webhook/Degraded what handleHealth takes as degraded.
--   Setup        parseElchi (setup.go): the setters and the final tests; Setup/Loops has the switch over
--                the directives and the two loops; Setup/Corefile says what a block of lines means.
--   Mock         the controller of mock-controller/main.go; Mock/Session is the plugin with it.
--   Process      the goroutines: InitClient, the loop of backgroundSync, the webhook server and the
--                queries, one critical section at a time in any order, and Shutdown (elchi.go,
--                webhook.go). Process/Kept carries a property of caches from their methods to every
--                reachable state; Process/Writes and
--                History relate the writes of the goroutines to the views of Cache/View, and Answers
--                has what queries get of them. Listing has what the cache shows of itself, Shutdown
--                and Ending what follows a call of Shutdown. Timed adds the clock, which moves no more
--                than a sync interval and a timeout from the end of one sync to that of the next, as
--                the ticker of backgroundSync and the timeout of the HTTP client have it.
--   Examples     concrete inputs: tests, and each theorem below at an input.
--
-- How state is read: a method that writes returns the new record. Each critical section of the cache
-- is one step. The gauge cache_size is a field of the cache, since it is set under its mutex.
-- Counters are functions of their labels. Times and durations are natural numbers of nanoseconds.
-- A Go map is an association list; no theorem turns on its order.
--
-- Bounds: strings map case as ASCII does, and leave every other character as it is. The IPv6 loop runs
-- eight rounds, as its test i < 16 allows: each reads two bytes. decimal takes one step for each unit
-- of its number, more than it has digits. The loops of parseElchi take a token with each round, and
-- have a round more than there are tokens.
--
-- What other code decides is a parameter: the network, the URL parser and the JSON decoders (Net in
-- Client), Caddy's controller with NormalizeExact and time.ParseDuration (Caddy in Setup),
-- encoding/json on the mock controller's side (Json in Mock), plugin.Zones.Matches, fall.F.Through and
-- the names of the query types (Dns in Serve), and the result of decoding a request's body (Decoded in
-- Webhook).
--
-- Not modelled: log lines, TLS and connection pool settings, the encoding of responses as JSON, an
-- address that cannot be listened on, and the 5 seconds after which Shutdown no longer waits for
-- requests in flight. setup registers the plugin and its Shutdown with CoreDNS, which is glue.
pub mod Prelude
pub mod Text
pub mod Name
pub mod Ip
pub mod Record
pub mod Cache
pub mod Client
pub mod Plugin
pub mod Serve
pub mod Setup
pub mod Sync
pub mod Webhook
pub mod Process
pub mod Mock
mod Examples
