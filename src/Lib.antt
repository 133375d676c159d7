-- ===== src/Lib.antt =====
-- The back end of a pizzeria: a FastAPI application (src/main.py) over a Prisma client. A request
-- passes the guards and limits that its endpoint declares, its body passes the validators of the
-- schema, the endpoint calls a service, the service calls a repository, and the repository calls the
-- client. What is raised on the way becomes a JSON answer in the handlers of src/core/exceptions.py.
--
-- How a request is modelled. `Action` is a call as a function of the state: it gives a value or an
-- exception, and the state it leaves, also when it raises. `World` is that state (the database, the
-- rate limiter, how many times clock and random source were read, the messages sent), and `Context`
-- is what does not change: the settings of src/core/config.py, the libraries, the client and the
-- sequences of readings of the clocks and of the random source. An `await` is a sequence of calls, so
-- that one request runs at a time.
--
-- Files:
--   Prelude, Text, Validation, Action: lists, dicts, texts as code points, validators, calls.
--     Text/Decimal on the digits of a number, Text/Parts on a text in another,
--     Action/Keeps on calls that leave a part of the state.
--   Errors: src/core/exceptions.py; Errors/Handlers on the answers of its handlers.
--   Server: the process. Middleware is src/core/middlewares.py, Lifespan src/infra/database.py and
--     src/__main__.py, App the application that src/main.py puts together, and Outcome beneath each
--     says what it does; Deploy is src/infra/seed.py run by itself; Redaction
--     follows every line of the log from the start to the end.
--   RateLimit: src/core/rate_limit.py (`record` is `record_attempt`, since the name is a word of the
--     language). Views is the abstract view, in which an expired window is no window; Checks and Steps
--     say what each operation does to it; Held and Bound count the callers of a whole sequence. Spec
--     is a table with one window per key, which Refinement compares with the code; Memory bounds the
--     windows, Retry is on the wait that a blocked caller is told.
--   Platform: uuid, email-validator, pydantic's items, pwdlib, hashlib and PyJWT as parameters, with `Laws` for what
--     the theorems use of them.
--   Prisma: the client as a parameter. Table has the calls on one table and their `Laws`, Rows and
--     Meaning what src/infra/prisma/schema.prisma says of the rows; Memory is a client over lists that
--     meets the laws of every call, and Absence is on the rows that a soft deletion hides.
--   World, Requests: the state, and how a body reaches an endpoint; World/Inversion on calls that
--     returned, World/Keeps on calls that leave the database.
--   Security: src/core/security.py and src/core/security_dependencies.py; Tokens on tokens at the
--     guards, Guards on whom the guards let through.
--   Units: src/modules/units. Cnpj has the check digits and Cnpj/Digits
--     the rule behind them, Schema the bodies, Repository the protocol
--     and the class behind it, Service takes any repository of the protocol, Controller has each
--     endpoint with the dependencies that run before it. Reach is the step relation of requests and
--     seedings on the database, with its invariant.
--   Users: src/modules/users, in the same files.
--   Auth: src/modules/auth. Limits has the policies and keys, Tokens the table of reset tokens,
--     Dependencies what the service is built from, Service the logins, refreshes and resets,
--     Controller the endpoints. Of the files under Service, Effects says what a login does to the
--     counter, Guesses counts the guesses of logins in turn, Deleted is on the tokens of a deleted account.
--   Seed: src/infra/seed.py. Logger: the redaction of src/core/logger.py; Logger/Lines the level.
--   Health: src/modules/health; Health/Ready on its answers.
--   Ingredients: src/modules/ingredients, forms and repository, which no endpoint uses.
--   Email: src/infra/email. Pagination: src/shared/types.py.
--   Tests: each theorem at a concrete input, on the database of Tests/Setup.
--
-- Numbers. Instants are whole nanoseconds in the limiter and whole microseconds in the tokens and the
-- rows; a token keeps its expiry in whole seconds, so the law of PyJWT asks for a second more. No
-- function runs on fuel: all loops are recursion on a list or a text. Python's integers have no bound,
-- and `page` and `page_size` reach a repository only from one on.
--
-- Not modelled: the JSON parser, the routing and the injection of dependencies by FastAPI, the format
-- of the lines of the log, uvicorn, the text of a traceback, and interleavings of requests at an `await`.
-- A validator stops at its first error where pydantic reports all; both refuse the same bodies.
pub mod Prelude
pub mod Text
pub mod Errors
pub mod Action
pub mod RateLimit
pub mod Validation
pub mod Units
pub mod Platform
pub mod Pagination
pub mod Prisma
pub mod World
pub mod Security
pub mod Requests
pub mod Email
pub mod Logger
pub mod Seed
pub mod Server
pub mod Health
pub mod Ingredients
pub mod Users
pub mod Auth
pub mod Tests
