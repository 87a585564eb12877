-- ===== src/Lib.antt =====
-- Test-at-Scale: the core of its two programs, nucleus, which runs one task of a build inside a
-- container, and synapse, which starts those containers for a server. All paths are from the root of the
-- repository. A function keeps its name, in snake_case; a method that writes to shared state
-- takes the state and returns the new one; an error is a value of `Result` or `Reply`.
--
-- The parts and their files:
--   Prelude, Format, Url/Escape: names of the libraries; lists, texts and maps of Go; printing and
--     reading of numbers (strconv), escaping (net/url) and replacing (strings).
--   Errs: pkg/errs. Models: pkg/core/models.go and runner.go.
--   PayloadManager: pkg/payloadmanager/setup.go; nucleus fetches a payload and validates it.
--   Lifecycle: pkg/core/lifecycle.go and GetDriver of pkg/driver/builder.go; the life of one task. The
--     services are an interface, the record `Services`, whose calls may fail or panic.
--     Lifecycle.antt has Start where the goroutine of the first report ends before the body begins;
--     Lifecycle/Racing every interleaving of the two, the body as a script.
--   Secret: pkg/secret/secret.go; tokens, repository secrets and their substitution in commands.
--   Config and Utils: pkg/tasconfigmanager/setup.go and pkg/utils/utils.go; the configuration file.
--     Config/Download: pkg/tasconfigdownloader/setup.go, which uses them on a downloaded file;
--     Config/Invalid: the text of the validator's errors.
--   Url and Diff: pkg/urlmanager/urlmanager.go and pkg/diffmanager/setup.go; addresses of the git
--     hosts and the changed files, which the diff manager fetches from those addresses.
--   Blocklist: pkg/blocktestservice/setup.go. Stats: pkg/service/teststats/teststats.go and
--     pkg/procfs, whose measurements it assigns to the tests.
--   Runner: pkg/runner/docker; the containers of synapse and the list of those that run. Runner/Volumes:
--     the build caches, which the job of pkg/cron cleans while builds come and go.
--   Requests: pkg/requestutils/request.go, and the reports that are one request each, pkg/task and
--     pkg/listsubmoduleservice. Git: pkg/gitmanager/setup.go, with Url, Requests and Command.
--   Command: pkg/command; scripts and environments. Discovery: pkg/testdiscoveryservice/testdiscovery.go.
--     Execution: pkg/testexecutionservice/testexecution.go. Cache: pkg/cachemanager/cachemanager.go.
--   Coverage: pkg/service/coverage; the coverage of the commits of a build, each on top of the one before.
--   Driver: pkg/driver; the discovery and the execution of a task for the two versions of the file. Its
--     `World` holds the task, the blocklist service, the cache and the calls made so far; Driver/Finish
--     gives the drivers to the life cycle. The goroutines of one phase are run each as a whole, in the
--     order that a `Schedule` gives.
--   Synapse: pkg/synapse and pkg/core/wsproto.go; messages, tasks and aborts. Its goroutines are the
--     steps of a relation (Synapse/Traces), which are taken in any order. It takes the status with which
--     the runner ends a container as any status. Synapse/Connection has its connection and what it
--     reads, Synapse/Parsing its answers to parsing requests, for which it uses Config/Download.
--   Loading: config/parse.go, loader.go and default.go; a walk over the struct types of both
--     configurations, which fills them from viper. Masking: pkg/logstream/mask.go; the secrets in logs.
--     Logging: pkg/lumber/logio.go; the lines of the output of a command, as messages of the logger.
--   Files: pkg/fileutils and pkg/zstd; copies of trees of files, and archives. Azure: pkg/azure/client.go
--     and pkg/logwriter, with Requests; Azure/Hits puts the store of blobs under the cache manager.
--   Server: pkg/api and pkg/proxyserver; the requests that nucleus answers and those that synapse passes
--     on. Server/Channels has the goroutines that wait to hand a result to a service, as steps.
--   Start: cmd/nucleus/bin.go and cmd/synapse/bin.go; both programs, put together from the constructors
--     of the other files.
--   Secrets: pkg/secrets/secrets.go; what synapse hands to a container, which Secret reads there.
--
-- Parameters stand for what is no code of the repository: HTTP, JSON, YAML and its struct validator,
-- the docker daemon, the file system, the environment and the clock.
--
-- Bounds: a number of Go's type int is an integer, and `atoi` refuses what does not fit 64 bits. Times
-- are nanoseconds since an origin. The fuel is that of the binary search, the number of
-- positions, which suffices since each round at least halves them, that of printing a number, which is
-- one more than the number, and that of a write to the logger, the number of its bytes. A request has
-- the attempts that its backoff policy allows, a number of the model's `Web`. Lines of a diff are cut
-- where `bufio.Scanner` stops, at 64 KiB.
--
-- Not modelled: everything that only calls the system or a library (sockets, the flags of commands,
-- wrappers of loggers, pings and deadlines of the websocket), and how the programs stop: the writer of
-- synapse's messages, its logout and the end of the goroutines of both programs.
pub mod Prelude
pub mod Errs
pub mod Files
pub mod Loading
pub mod Logging
pub mod Masking
pub mod Models
pub mod Format
pub mod Url
pub mod Diff
pub mod Utils
pub mod Config
pub mod Azure
pub mod Blocklist
pub mod Start
pub mod Stats
pub mod Server
pub mod Runner
pub mod Synapse
pub mod PayloadManager
pub mod Lifecycle
pub mod Secret
pub mod Secrets
pub mod Requests
pub mod Command
pub mod Git
pub mod Cache
pub mod Discovery
pub mod Execution
pub mod Coverage
pub mod Driver
