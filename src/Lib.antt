-- ===== src/Lib.antt =====
-- The traffic accounting, renewals, port reservations, configuration operations, login limits, agents'
-- registration and servers' lifecycle of vps-panel, a panel for servers and proxies.
-- Agents report the counters of their network interfaces and of their proxies' clients. The panel
-- keeps them in tables, counts the traffic of each cycle, and turns clients off and on by it.
--
-- Each file names the code that it is about.
--   Prelude        tests, lists, integers and results over native numbers, texts, tables by key
--   Calendar       what the program uses of Go's `time`: dates in Asia/Shanghai, times of day
--   ServerTraffic  panel/internal/server/traffic.go; Report: ReportMetrics of server/metrics.go
--   ClientTraffic  panel/internal/proxy/traffic.go. Cycle: when a cycle begins and ends. Store: the
--                  reports of a batch. Versions: resets, reconciliation, bumpVersion of
--                  proxy/desired.go
--   Renewal        panel/internal/server/renewal.go
--   Subscriber     panel/internal/subscription/usage.go: charges by a multiplier, the user's cycle. It
--                  uses the tables of ClientTraffic
--   Listener       panel/internal/listener/listener.go, with the triggers of
--                  panel/internal/database/versioned_migrations.go that guard its table
--   Relay          panel/internal/relay/validation.go. WellFormed: what a valid relay is. FreePort: the
--                  port of a user's relay, on top of Listener
--   Operation      panel/internal/operation/operation.go. History: any sequence of its transactions
--   AgentResult    panel/internal/agentcontrol/result.go, on top of Operation
--   AgentMetadata  panel/internal/agentcontrol/metadata.go
--   AgentControl   panel/internal/agentcontrol/enrollment.go and registration.go. Connection: status.go.
--                  Enrolling: what the tokens are good for
--   ServerLifecycle  panel/internal/server/lifecycle.go and enrollment.go, on top of AgentControl and
--                  Operation. History: any sequence of transactions on servers and agents. Rounds: from
--                  the request of a decommission to its end
--   ServerDependencies  the tables that the cleanup in server/lifecycle.go disables rows of
--   ServerAccess   panel/internal/server/access.go
--   Notification   panel/internal/notification: model.go, and the traffic warnings of watcher.go. Online:
--                  the notices of servers that go and come back, with the queue of service.go
--   ListOrder      panel/internal/listorder/order.go
--   Invitation     panel/internal/auth/invite.go
--   LoginLimiter   panel/internal/api/login_limiter.go, NormalizeLoginIdentifier of auth/user.go
--
-- A service's database is a record of lists of rows, one list for each table it reads. An operation
-- takes the tables and returns the new ones or an error; an error leaves the tables as they were, as
-- a transaction that is rolled back does. A query by key finds the first row with it, and an update
-- rewrites the rows with it. The failures of the database itself are not modelled.
--
-- An instant is a number of seconds from 0001-01-01 00:00 UTC, the zero of Go's time.Time. The zone
-- is eight hours ahead of UTC with no summer time, as time.FixedZone("Asia/Shanghai", 8*60*60) is.
-- A month is its number from January of year 1, which is month 0. A theorem on cycles asks for an
-- instant from February of year 1 on where a month before it is needed, and from March on where a
-- week before that month's first day may be.
--
-- An int64 that the code keeps at 0 or more is a natural number. A test against math.MaxInt64 is
-- kept as written, with max_int64. A number that may be negative is an integer of Prelude.Int.
--
-- The loop of Renewal.renew_until runs on fuel. Each round moves the expiry on by at least a second,
-- and the fuel given is one more than the seconds from the expiry to now, which is enough.
--
-- The loop of Notification.steps_from runs on fuel 101: a percentage grows with each round, and the loop
-- ends at 100. Telegram's answer is an argument of Notification.Online.deliver.
--
-- Of strings.ToLower only the ASCII letters are modelled. The login limiter's lock is taken for each
-- call as a whole, so a history of it is a sequence of calls; its instants are nanoseconds.
--
-- A share of a CPU is a parameter of ServerTraffic.Report, with the test that it is a number from 0
-- to 100. Not modelled: the HTTP handlers, the agent, rendering of configurations, mail, backups, the
-- web interface, since they are input and output or text; and for now plans, the tables of relays,
-- sessions, the texts of notifications, a server's permanent deletion and the hub of the agents'
-- connections. Where the archive of a server reconciles the subscribers of its clients, the outcome is
-- the argument `reconciled`: the rows of `clients` that it leaves and the servers that it names, or its
-- error, with which the archive is rolled back. Which servers there are is an argument of Listener, for
-- the foreign key of the table of reservations. The rows that a user may see are an argument of
-- ListOrder. SHA-256 and the tokens made at random are arguments of AgentControl and Invitation,
-- bcrypt of Invitation, net.ParseIP and the choice of a port of Relay.
pub mod Prelude
pub mod Calendar
pub mod ServerTraffic
pub mod ClientTraffic
pub mod Renewal
pub mod Subscriber
pub mod Listener
pub mod Operation
pub mod LoginLimiter
pub mod AgentResult
pub mod ListOrder
pub mod AgentMetadata
pub mod AgentControl
pub mod ServerDependencies
pub mod ServerLifecycle
pub mod Notification
pub mod Relay
pub mod Invitation
pub mod ServerAccess
