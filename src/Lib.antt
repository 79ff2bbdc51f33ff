-- ===== src/Lib.antt =====
-- A verification library for bank-fastapi, the banking API under backend/app: accounts, money
-- movements, histories and statements, fraud review and its models, virtual cards, next of kin,
-- users and profiles, and the rate limit, modelled as functions on the database's tables.
--
-- How the parts interact. A service call is an `Action` (Core.Database): it takes the committed
-- tables `Db` and returns its value or an exception, with the tables as they are committed when it
-- ends; what was not committed before an exception is rolled back, as `get_session` in core/db.py
-- does. A request passes the rate limit and the guards by token and role before its service runs.
-- The money services (transaction/service.py) change rows of accounts under row locks, score
-- transactions through core/ai/service.py, mark failures through transaction/utils.py and issue
-- OTPs on users; histories and statements read what they wrote. Virtual cards are funded from
-- accounts, and an account is opened only for a user with a profile and a next of kin.
--
-- Which file models which part:
--   Prelude          Boolean tests, signed integers, tables of rows, their counts and pages
--   Models           the enums.py and models.py files; JSON metadata is an ordered dict
--   Core             core/exceptions.py, core/db.py (Database, and init_db in Startup), and what a
--                    call takes from outside (Context)
--   Account          bank_account/utils.py (Number, Conversion) and bank_account/service.py (Service)
--   Transaction      transaction/service.py: Deposit, Transfer (initiate_transfer in Plan and
--                    Initiate, complete_transfer in Complete), Withdrawal, Review, Locks, History,
--                    Statement (with routes/statement.py); Fraud is core/ai/service.py, Failure and
--                    Idempotency are transaction/utils.py with the protocol of routes/withdrawal.py
--                    and routes/transfer.py
--   Card             virtual_card/service.py (Service, TopUp) and virtual_card/utils.py (Number and
--                    Expiry)
--   Kin              next_of_kin/service.py
--   Auth             auth/service.py with auth/routes: the two steps of a login (Service),
--                    auth/utils.py (Tokens), auth/dependencies.py and the refresh (Access),
--                    registration, activation and password reset (Registration)
--   Profile          user_profile/service.py
--   RateLimit        core/rate_limit: the counters, and the middleware's dispatch (Middleware)
--   Ml               core/ml/deployment.py and core/tasks/ml.py: which model is live (Deployment),
--                    and a prediction with its fallback (Inference)
--   Breaker          core/resilience.py
--   Routes           the routes that change tables: guard, service and stored answer
--   Health           core/health.py, and the route /health of main.py; Waiting has its wait
--   Tests            runs at a small bank
-- The other modules hold proofs. Money: Transfer/Initiated, Outcome, Progress and Completable and
-- Decisions (how calls end), Accounting (sums of balances), Locks/Order and Locks/Waiting (row
-- locks), Preservation, Invariant and Schedule (the invariant of the tables under interleaved
-- requests), Ledger (the abstract ledger of balances that the services implement). Queries:
-- History/Pages, Statement/Contents and Statement/Shown. Users: Lockout, Sessions, Onboarding, Resets, Profile/Columns.
-- Limits (numbers of rows), Funds and States (cards), Bounds and Luhn (numbers), RateLimit/Windows
-- and Requests, Ml/Deployments and Scores, Breaker/States, Health/Verdicts and Layers,
-- Routes/Owners and Guards.
--
-- Numbers. Money is in cents: an amount is a natural number, a balance a signed one; exchange rates
-- are ten-thousandths, risk scores hundredths, times seconds. Whether a NUMERIC column takes a
-- balance is `fits` of the context. Ids are numbers. Loops run over a finite list or a bounded range
-- and are structural recursion. Two definitions take fuel: a health check recurses over dependencies
-- to Python's recursion limit, and the wait of Health.Waiting has 31 turns for 30 seconds, each of
-- which takes a second or more.
--
-- What comes from outside: time, fresh ids, random digits, Argon2, the loaded model's inference,
-- MLflow, whether an e-mail is sent, JWTs (`Jwt`: a token that was signed decodes to its payload
-- until it expires), Redis (a store of counters with an expiry), the order of rows that ORDER BY
-- leaves open, and three behaviours of SQLAlchemy (Core.Outside) that are left open, so that the
-- theorems hold either way or name the case they need. An INSERT into the transactions raises where
-- the id or the reference is taken. The Redis commands of one request to the rate limit read
-- separate stores, since other requests run between them; RateLimit/Windows says where a theorem is
-- about requests that come one after another. The application under the middleware is an argument,
-- with the call that the middleware makes again after an exception as a second one.
--
-- Not modelled: the texts of e-mails, Celery tasks and PDF rendering, the training, evaluation and
-- features of models (calls of scikit-learn and pandas), the unused rule-based analyzer
-- core/ai/transaction_analyzer.py, what a health probe asks, the polling of the start-up
-- (startup_health_check), the routes that only read, cookies, settings, seeding and migrations.
pub mod Prelude
pub mod Models
pub mod Core
pub mod Account
pub mod Transaction
pub mod Card
pub mod Health
pub mod Kin
pub mod Routes
pub mod Tests
pub mod Auth
pub mod Breaker
pub mod RateLimit
pub mod Profile
pub mod Ml
