-- ===== src/Lib.antt =====
-- Finora, a personal finance application: five Go services behind one another, and the packages
-- that they share. This library models the logic of the services and proves what they promise.
--
-- A request reaches the gateway (services/gateway), which checks its access token, says in a header
-- who it comes from, and forwards it by the prefix of its path. The user service keeps users,
-- settings and refresh tokens and issues the tokens (shared/jwtx). The expense service keeps
-- accounts, categories and transactions, imports statements, and leaves an event for each new
-- transaction in its outbox (shared/outbox), from which a relay gives it to the broker. The budget
-- service keeps budgets and goals; on such an event it sums the spending of the period through the
-- expense service's HTTP interface, and sends an event for a budget that is overspent. The
-- notification service makes a notification of that event.
--
-- How the code is read. A method is a function from its arguments and the state of the databases
-- to a value or an error, with the state that it leaves (Action, in Base/Effects); `if err != nil`
-- is a step of a do block. A text is its list of bytes. A float64 is a multiple of 2^-1074, an
-- infinity or not a number (Golang/Float); how a sum is rounded is a parameter with one law, that
-- rounding a difference keeps its sign. A time is a number of nanoseconds with Go's proleptic
-- calendar computed on it (Golang/Time), and the number of documents to skip in a list is an int64,
-- with its wrap-around (Golang/Float/Int). A collection of MongoDB is a record of the driver's
-- operations with its documented behaviour as laws (Mongo): a change of one document is applied or
-- not, an operation that fails may have been applied, and a change of many documents that fails
-- may have been applied to some of them. A time is stored as a BSON date, in whole milliseconds
-- (bson_date in Mongo), and a JWT has its times in whole seconds (numeric_date in Jwt).
-- Mongo/Memory is a collection in memory that has all these laws.
--
-- The files and what they model.
--   Base, Golang, Mongo: what the services use of the language, its library and the driver.
--   Http: shared/httpx/envelope.go, and the context of a request. Http/Middleware:
--   shared/middleware, of which identity.go, requestid.go, cors.go and, in RateLimit, ratelimit.go.
--   Health: shared/health/health.go. Eventbus: shared/eventbus/eventbus.go.
--   Jwt: shared/jwtx/jwtx.go.
--   Outbox: shared/outbox/outbox.go. Enqueue, and RelayOnce over the list that its query gives.
--   Gateway/Proxy, Gateway/Auth, Gateway/Router: services/gateway/internal/proxy, authmw, router.
--   User/Domain, User/Auth, User/Profile: services/user-service/internal/domain and service.
--   User/Store, User/Store/Users, User/Store/Settings: repository/refresh_token_repository.go,
--   user_repository.go, settings_repository.go. User/Http/Auth, User/Http/Users: handler.
--   User/Unique: the services of users over their repository.
--   Expense/Domain, Accounts, Categories, Transactions, Import (with Import/Amounts):
--   services/expense-service/internal/domain and the files of service.
--   Expense/Store/Transactions, Accounts, Categories: the files of repository. Expense/Http, with a
--   module for each file of handler: the handlers. Expense/Events: events/publisher.go.
--   Budget/Domain, Period, Budgets, Goals, Report, Overspend, Client:
--   services/budget-service/internal/domain, service and client/expense_client.go.
--   Budget/Store/Budgets, Budget/Store/Goals: repository. Budget/Http, with a module for each file of
--   handler: the handlers. Budget/Events: events/publisher.go, and the consumer of
--   cmd/server/main.go.
--   Notification/Domain, Service, Store: services/notification-service/internal/domain, service,
--   repository/mongo_notification.go. Notification/Http: handler/notification_handler.go.
--   Notification/Events: the consumer of cmd/server/main.go.
--   Pipeline: the publishers of one service and the consumers of the next.
-- The modules below these hold the theorems, and each Tests module applies them to concrete data.
-- An abstract view of the accounts, a book of the accounts of one user, and its steps are in
-- Expense/Store/Accounts/Book.
--
-- A handler is a function from the context of the request (gin's, as far as the code reads it), what
-- gin binds of its body or its query, and the state of the databases, to the answer and the state
-- that it leaves. In the services' Http/Services the interfaces that the handlers call are records,
-- which the services fill.
--
-- Parameters, since their code is not in the repository: the MongoDB driver, the JWT library,
-- bcrypt and SHA-256, ParseFloat, Atoi, time.Parse, ToLower, EqualFold and LoadLocation, gin's
-- binding of a body with the messages of its errors, csv.Reader as the list of the records that it
-- reads, the JSON codec of the events, the package rate, JetStream, the answers of another service
-- over HTTP, the current time and random identifiers.
--
-- Bounds: the loop over the pages of a list of transactions is a recursion on the pages that are
-- left, of which the code allows 50; every other loop is a recursion on the list it goes over.
--
-- Not modelled: the tables of routes of the services behind the gateway, the reverse proxy, logging,
-- recovery from a panic, the limit of a body's size, configuration, the start of the services and of
-- their streams, the set-up of indexes, the sender of e-mails, which only logs, and the frontend.
-- Two requests may follow one another in any order, but within one request the operations of the
-- databases are not interleaved with those of another.
pub mod Base
pub mod Golang
pub mod Budget
pub mod Jwt
pub mod User
pub mod Gateway
pub mod Outbox
pub mod Health
pub mod Eventbus
pub mod Pipeline
pub mod Notification
pub mod Mongo
pub mod Http
pub mod Expense
