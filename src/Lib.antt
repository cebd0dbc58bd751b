-- ===== src/Lib.antt =====
-- topsrv: an agent that collects the metrics of a host, follows its access logs, ships events to an
-- ingest service and keeps its own binary up to date.
--
-- The parts, and how they meet in the program
--   An access log is tailed line by line. A line becomes a ParsedLine (internal/topsrv/nginx/log.go);
--   its path becomes a label, and its status, size and times are counted, by path too
--   (internal/topsrv/nginx/uricounters.go). It is handed to two observers: the bot-log keeps the lines
--   whose user agent is on a list (internal/topsrv/botlog), the web-log keeps the lines of the logs
--   that were checked at the start (internal/topsrv/weblog). internal/app decides which fields are
--   read for them. Both put events into the queue of a shipper (internal/topsrv/shipper/pusher.go),
--   which sends them in batches and keeps on disk what it could not send. The metrics themselves are
--   pushed by internal/topsrv/push.go, with a spool of its own. The inventory of packages
--   (internal/topsrv/packages) marks the kernels that are not the running one; the push carries it. The
--   updater (internal/topsrv/updater.go) runs beside them.
--
-- Which file models what
--   Base and Base/*      lists, texts as lists of bytes, Go's strconv, strings, int64, sorting, maps as
--                        lists of their entries, filepath.Clean and Join; shared lemmas.
--   Runes                internal/topsrv/text.go: truncate_at_rune is TruncateAtRune, back its loop.
--   App                  internal/app/app.go: merge_unique, cap_extract_fields, missing_from_extract,
--                        high_card_labels; wire and warnings are registerLogCollector with the
--                        aliases as an argument, which App/Aliases finds: resolveBotlogAliases.
--   Nginx/UriCounters    internal/topsrv/nginx/uricounters.go: UriCounters is uriCounters with its map
--                        as an association list; add, sweep, new_uri_counters are the methods. The
--                        counts are uint64 and wrap around; nowUnix is an argument. Size, Totals and
--                        Eviction hold the theorems.
--   Nginx/Fields         internal/topsrv/nginx/log.go: resolve_method, resolve_time and
--                        resolve_client_field on any reader of named fields; method_of, strip_query,
--                        raw_uri_from_request and join_path_args. Resolve and Request hold the lemmas.
--   Nginx/Regex, Paths   the same file: the regular expressions of normalizePath as scans with
--                        leftmost-first choice (Regex), and normalize_path, truncate_path, normalize_uri
--                        and resolve_uri in Paths. Clean, Digits and Label follow a label through them.
--   Nginx/Line, Record   the same file: fill_line, the JSON entry and the line parsers; record_line, with
--                        the histograms and the export of their cumulative buckets.
--   Updater/*            internal/topsrv/updater.go. Disk is the state of the file system (the binary,
--                        the backups, the saved state), with load_state, save_state and replace;
--                        Version orders versioned names; Backups has backup and trim_backups; Rollback
--                        has check_rollback, mark_stable, mark_graceful and attempt_rollback; Check has
--                        fetch_update, download, verify_checksum, extract_binary and check. An Env says
--                        which system call fails; os.Exit is a value of Process.
--   Shipper/*            internal/topsrv/shipper: Event is event.go, the others pusher.go. State has
--                        Pusher, Options and the counters; Send has send and send_with_retry; Spool has
--                        spool, trim_spool, replay_one, retry_spool and the scans of the directory; Run
--                        has enqueue, flush, drain_queue, drain_and_flush_all, flush_final and run. The
--                        schedule of the select in Run is a list of moves (an event is offered, an event
--                        is received, the ticker fires); its end is the end of the context. An Env
--                        answers the requests and the system calls; encodeBatch is a parameter.
--   Push/*               internal/topsrv/push.go. State has the pusher, its files by directory and the
--                        Env; the parent has send, spool, trim, retry_files, push_metrics, flush; Inventory
--                        has the pushes of metadata and inventories and the loop. Stamps, Listing, Acks
--                        and Backlog hold lemmas; Fifo has the abstract bounded queue and its
--                        relation to the directory.
--   Packages/*           internal/topsrv/packages: Snapshot is inventory.go; Dpkg, Apk and Rpm read the
--                        databases, Rpm with the dnf history; Host is osinfo.go and manager.go; SourceRpm
--                        is parseSrcRpm; Kernel orders releases and Marks is the rest of kernel.go;
--                        Collector is collector.go and config.go, and Collector/Api hands its payloads to
--                        the push.
--   Botlog/*             internal/topsrv/botlog: Bots is the list of ua.go, Match is MatchUA; Values has
--                        the readers of event.go (parse_status, parse_uint32, sanitize_request_id) and
--                        the access of observer.go to the extras; Event has build_event, new_event,
--                        normalize_host and observe_bot, which is OnLogLine; Aliases has FieldAliases with
--                        with_fallback and names, and Detect is DetectAliases, whose expressions are
--                        scans; Config is Validate of config.go.
--   Weblog/Formats       internal/topsrv/weblog/format.go: check_formats is CheckFormats, vars_of the
--                        regular expression of varsOf as a scan of the bytes.
--   Weblog/Lines, Observe internal/topsrv/weblog/observer.go: filter_line is OnLogLine up to the
--                        classifier, with the counters of metrics.go; observe_web is all of it.
--   Weblog/Config        internal/topsrv/weblog/config.go: validate_web is Validate.
--   Smart                internal/topsrv/smart: host_bytes_written is hostBytesWritten of writes.go, and
--                        logical_sector_size reads the size of a sector, smart_linux.go.
--   A module Tests beside these runs the definitions and instances of the theorems on small inputs.
--
-- Bounds and fuel
--   The loop of drainAndFlushAll runs on fuel: the length of the queue and 2. Every round but the last
--   takes at least one event, so the fuel is enough, which the theorem on the shutdown shows.
--   The replacement of matches in a path runs on the length of the text: each match takes a byte. A
--   decimal number is written with up to 19 digits, which every int64 fits. The stamps in the names
--   of spool files have 13 digits, as milliseconds do until the year 2286; the theorems that need it
--   say so. The scanners of dpkg and apk stop at a line of 2^20 and of 2^16 bytes, as the code's do.
--   All other loops recur on the list they walk. A limit or size that the code holds in an int and
--   treats alike at zero and below is a natural number. Prometheus counters have no bound here.
--
-- What is not modelled
--   Libraries and the system are parameters: HTTP, tar, url.Parse, time.ParseDuration, json, gonx, the
--   rows of the rpm database and of SQLite, strings.ToLower of a host, the clock, and the
--   floating-point numbers with ParseFloat, of which only comparison and the whole part are used.
--   The collectors of host metrics, PostgreSQL, Angie, certificates and the status page hand a
--   library's numbers to Prometheus, as SMART does but for the written bytes. Logging, the tailing of
--   files, the discovery of services and of nginx configurations, and the start of the parts in
--   internal/app and cmd/topsrv are left out.
pub mod App
pub mod Base
pub mod Runes
pub mod Smart
pub mod Nginx
pub mod Updater
pub mod Shipper
pub mod Botlog
pub mod Weblog
pub mod Packages
pub mod Push
