-- ===== src/Lib.antt =====
-- lillian_backend: the backend of an image-generation service, in Go. Wallets hold credits and, for
-- each service, an entitlement of uses; a request for images reserves its price and becomes a
-- queued task; workers claim tasks, call a provider, and finish or refund them; licences and
-- payments fill the wallets.
--
-- The database is a record of tables (Schema), over which Sql gives the statements that pgx makes:
-- a handler is a computation `Exec E World A`, in do blocks, whose state World holds the database,
-- the calls of the database that are to fail (`faults`), the readings of the clock and the values of
-- the random source. Each statement takes the next fault; a transaction whose body fails, or whose
-- Commit does, leaves the database as it was. Statements of one transaction run with no other
-- between them: the program orders them by FOR UPDATE and an advisory lock. Everything that a
-- theorem says of all worlds it says of all failures.
--
--   Common          lists, texts (code points), integers, tables, sorting, effects, tests
--   Schema          the rows (internal/task/model.go, the structs of internal/httpapi)
--   Sql, Sql.Rules  statements, transactions, and the rules for what a computation keeps
--   Numbers, Params maxInt, boundedInt, stringParam and the like
--   Wallets         lookups and snapshots (internal/httpapi/wallet_api.go); Wallets.Redeem the
--                   creation of wallets and the redemption of licences; Wallets.Handlers
--   Billing         which service and price a request is billed to (internal/httpapi/tasks.go)
--   Profiles        which provider profile serves it, its counters and cooldown (tasks.go)
--   Config          the environment read into a configuration (internal/config/config.go)
--   Storage         keys, public URLs and calls of the object store (internal/storage/s3.go)
--   Secrets         the encryption of stored keys, and random names and codes (product_api.go)
--   Settings        runtime settings (internal/httpapi/runtime_settings.go)
--   Http            the guards of the handlers (product_api.go, server.go), Http.Urls the public
--                   addresses, Http.Status the health, readiness and configuration answers
--   Tasks           Create (handleCreateTask), Claim (claimNextQueuedTask, claimQueuedTaskByID),
--                   Execute (executeTask), Refund (failTaskAndRefund), Recover
--                   (recoverStaleWalletRunningTasks), Worker (processTask), Image (handleGetTaskImage),
--                   Show (handleGetTask), Provider (callImageService: Sizes aspect ratios, Images
--                   data URLs, Requests the bodies that are sent);
--                   Tasks.Ledger holds the proofs on what accounts are worth
--   Payments        the callback of EPUSDT (internal/httpapi/payments.go), its signature and
--                   checks, and the crediting of a payment
--                   Payments.Catalog the prices and plans, Payments.Plans the administrator's
--                   changes to plans, Payments.Topup the creation of an order
--   Admin           licences, profiles and runtime settings as the administrator changes and lists
--                   them (product_api.go, runtime_settings.go), and wallets as the administrator
--                   sees them (admin_wallet.go)
--   History         the steps of the whole program on the database; History.Book the account book
--                   that they refine
--   Routes          the table of routes and the administrator's calls (server.go)
--   Migrate         the migrations applied at the start (internal/db/migrate.go)
--   Examples        a small database, and each theorem at a concrete input
--
-- An account is a wallet's credits or an entitlement's uses; its value, `ledger`, is what its row
-- holds and what its tasks hold of it. `Keeps SameLedger m` says that m changes no account's value
-- in any world.
--
-- Bounds and fuel: the loops of the program are structural recursion on lists; the loop over the
-- providers counts the fallback retries, one in the source, down to none; the loop of a worker counts
-- its rounds. decimal prints with n + 1 digits at most, which is more than a number n has; gcd a b
-- runs on b + 1 rounds, since its second number falls in each. strconv.Atoi refuses what no int64
-- holds, and durations wrap around as int64; elsewhere the range of int and of INTEGER is not
-- modelled, and integers are unbounded. Times are nanoseconds from 0 on.
--
-- Not modelled: the matching of routes, the wire format of HTTP, the deadlines of contexts, the set-up
-- of the S3 client and of the pool of connections, what the SQL of a migration does, and the admin
-- pages. The sending of a request, JSON, base64, float64, the calls of the object store, AES-GCM,
-- SHA-256, MD5, big.Rat, time.Parse, url.QueryEscape and os.Getenv are parameters. JSON values are
-- read from where Go has unmarshalled them. A row's raw_request and raw_response are left out. A
-- theorem on executeTask holds for any provider; callImageService is one, `provider_upstream`.
pub mod Admin
pub mod Billing
pub mod Common
pub mod Config
pub mod Examples
pub mod History
pub mod Http
pub mod Migrate
pub mod Numbers
pub mod Params
pub mod Payments
pub mod Profiles
pub mod Routes
pub mod Schema
pub mod Secrets
pub mod Settings
pub mod Sql
pub mod Storage
pub mod Tasks
pub mod Wallets
