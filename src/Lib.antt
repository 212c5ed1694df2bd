-- ===== src/Lib.antt =====
-- Lantern, a home page for a home lab: a server that keeps services, finds new ones on the network
-- and in Docker, and gives each a subdomain at Cloudflare, by an A record or by a tunnel.
--
-- Parts, and the code that they are about:
--   Store      internal/store/store.go. The services, discovered and ignored entries and bookmarks,
--              each with its indexes. Objects that maps and indexes share lie in a heap (Go/Heap),
--              so that an update through one pointer shows at all of them. Operations keep the
--              names of the Go methods (AddService is add_service); mutexes make each of them one
--              step. Store/Save is `Save` as steps of several goroutines, Store/Load the indexes that
--              are rebuilt at the start, Store/Icons the files of icons.
--   Cf         internal/cf. The client as actions on a world, with the service as the parameter
--              `send`; Cf/Ingress is the pure part of `modifyIngress`, Cf/Tunnel/Served the documented
--              behaviour of the service for tunnels. The service keeps a rule with its path and its
--              settings for the origin (`IngressEntry`), of which the code reads and writes the host
--              name and the service (`IngressRule`).
--   Web        internal/web. Web/Dns is `planDNS` and `reconcileDNS`, Web/Services and Web/Edits are
--              the handlers that create, update and delete services, Web/TtlCache is the cache.
--              The handlers use the store, the client and the discovered entries. Web/Bookmarks,
--              Web/Settings (DDNS domains and scanned subnets), Web/Groups (search and grouping for
--              the pages), Web/Gzip (the compression of a response), Web/Favicons (icons by id) and
--              Web/Health (a round of checks) are handle_bookmarks.go, handle_settings.go,
--              templates.go, server.go, static.go and health.go.
--   Discovery  internal/discovery. docker.go: targets and ports, what labels say, and containers that
--              start and stop, which change services and discovered entries of the store.
--              Discovery/Scan and Discovery/ScanState are discovery.go: the two scans, over a list of
--              the results that the probes give, the log and the flag of a running scan. network.go
--              is Discovery/Hosts (addresses of a subnet), Discovery/Signatures (the table of known
--              programs, entry by entry) and Discovery/Probe; Discovery/Arp is arp_linux.go. The
--              results of the probes are the scans' input.
--   Proxy      internal/proxy/proxy.go: which requests go to which target, with the cache of proxies,
--              and in Proxy/Headers the URL and the headers of the request that the target gets. It
--              reads the store's services.
--   Tunnel     internal/tunnel/manager.go. Tunnel/Process is the manager's fields and the goroutines
--              that watch and stop processes, as steps that may come in any order; Tunnel/Manager is
--              creation, deletion and status, with the client of Cf, and web/handle_tunnel.go.
--   Certs      internal/certs/certs.go: which certificate is served, and the rounds of its renewal.
--   Config     internal/config/config.go.
--   Ddns       internal/ddns/ddns.go. A check of the public address, with the client's calls.
--   Util       internal/util/util.go. Form values, ports, subdomains.
--   Go         What the code uses of Go: maps, pointers, `strings`, `strconv`.
--
-- An `int` has no bound, save in Atoi and in Config, and a time is a number of nanoseconds, or of
-- seconds in Certs and Web/Favicons. A map is a list of its entries in the order of `range`; theorems
-- hold for every such list. Recursion is on lists and texts,
-- but for the digits of a number, which have the number and one more as fuel, since each division by
-- ten makes it smaller, and the loop over the hosts of a subnet, whose fuel is an argument: a prefix of
-- `b` bits needs 2^(32-b) rounds at most. Texts are code points; the search for ASCII texts is the same
-- in UTF-8. An IPv4 address is a number below 2^32, a byte one below 256.
--
-- Parameters: the Cloudflare service, the ACME library, net/url, the HTTP client and the resolver of
-- the probes, the frames that a socket gives, base64, the sorts of package sort, the lower case of
-- characters beyond ASCII, the regular expression for Traefik's rules, the probe of a port, the
-- environment, the ids and times that a call draws, how SetURL joins two paths, and whether files can
-- be written and removed and processes started.
--
-- Not modelled: error texts, JSON, HTML, routes and embedded files; the packets of mDNS, SSDP and
-- WS-Discovery and the workers of a scan; the pipes of a process; the account files of ACME; the
-- requests that fetch a favicon; sysinfo, the tickers and `main`.
pub mod Prelude
pub mod Go
pub mod Store
pub mod Util
pub mod Tunnel
pub mod Proxy
pub mod Certs
pub mod Config
pub mod Cf
pub mod Discovery
pub mod Ddns
pub mod Web
