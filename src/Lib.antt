-- ===== src/Lib.antt =====
-- Verification of backend-core-kit, a backend for accounts, sessions and administration.
--
-- The program keeps its state in PostgreSQL, which it reaches through Prisma, and in Redis. The
-- services of libs/features call repositories, which run transactions; the platform code under
-- libs/platform retries transactions and makes write endpoints idempotent.
--
-- Files and what they model (paths from the repository's root):
--   Prelude            shared notation, Boolean tests, texts and the laws of lists
--   Db/Rows            rows of prisma/schema.prisma, errors, unique constraints
--   Db/Queries         Prisma as a parameter: the record Queries, with the laws IsSql
--   Db/Client          actions on the database, and the queries of the tables as actions
--   Db/Retry           libs/platform/db/tx-retry.ts: withTransactionRetry, withSerializableRetry
--   Auth/RefreshTokens libs/features/auth/infra/persistence/prisma-auth.repository.refresh-tokens.ts
--   Auth/Sessions      .../prisma-auth.repository.sessions.ts
--   Auth/Credentials   .../prisma-auth.repository.credentials.ts
--   Auth/Service       libs/features/auth/app: errors, helpers, configuration
--   Auth/Lifecycle     libs/features/auth/app/auth-session-lifecycle.service.ts
--   Auth/Users         .../prisma-auth.repository.users.ts: registration, external identities,
--                      verification of an e-mail
--   Auth/Passwords     libs/features/auth/app/auth-password-auth.service.ts
--   Auth/Oidc          libs/features/auth/app/auth-oidc-auth.service.ts
--   Auth/Tokens        libs/features/auth/app: auth-email-verification.service.ts,
--                      auth-password-reset.service.ts, auth-push-tokens.service.ts,
--                      auth-sessions.service.ts (revokeMySession) and auth-user-state.ts
--   Accounts/Admin     libs/features/admin/infra/persistence/prisma-admin-users.repository.ts
--                      (setUserRole, setUserStatus) and libs/platform/db/row-locks.ts
--   Accounts/Deletion  libs/features/users/infra/persistence/prisma-users.repository.ts
--                      (requestAccountDeletion, cancelAccountDeletion)
--   Accounts/Finalize  apps/worker/src/jobs/users-account-deletion.handlers.ts
--                      (runFinalizeAccountDeletionTx)
--   Accounts/ProfileImages  libs/features/users/infra/persistence/
--                      prisma-profile-image.repository.ts
--   Accounts/StoredFiles  apps/worker/src/jobs/users-account-deletion.handlers.ts
--                      (runDeleteProfileImageStoredFile, runExpireProfileImageUpload)
--   ListQuery/Sort, Scalars, Cursor, Filter, Request
--                      libs/shared/list-query: sort.ts, scalars.ts, cursor.ts, filter.ts,
--                      list-query.ts
--   ListQuery/CursorAfter  libs/shared/list-query/cursor-after.ts
--   Redis              the commands of Redis as a parameter, with their laws
--   Idempotency        libs/platform/http/idempotency/idempotency.service.ts and idempotency.core.ts
--   Rbac               libs/platform/rbac/permissions.ts
--   History            the transactions of the repositories one after another, in any order
--   RateLimit          libs/features/auth/infra/rate-limit: login and password resets
-- A function has the name of the code's, in snake case; a function that the code writes in one
-- piece is cut into steps, each of which names the part that it is. Files below a component prove
-- what is said of it, and its Tests run it on concrete data.
--
-- State and interleaving. An action takes the database and gives a result or an error, and the
-- database after it. A transaction whose body throws is rolled back. What other requests commit
-- while an operation waits is an argument of the operation (`others`, `racing`, `passing`), an
-- arbitrary function on the database or the store, at the point where the code waits. Two reads of
-- one transaction with no such argument between them see one state. The retried transactions of
-- Db/Retry take what is committed between their attempts as an argument (`passing`); the repositories'
-- operations are taken with nothing committed there (`alone`).
--
-- Parameters. Prisma and PostgreSQL (Queries with IsSql: what the queries answer, what a
-- transaction commits, and which attempts fail with which error), Redis (what GET answers after
-- each command), the hash of a refresh token and the signature of an access token (Crypto),
-- drawn random tokens and generated ids, and the clock, which gives the argument `now`. The hash
-- of a password (PasswordHasher: a hash verifies the password that it was made of), the verifier
-- of an external identity's token (OidcVerifier), the hash of a mailed token (`hash_token`), and
-- the address that an erased account gets (`scrubbed_email`). The object storage (ObjectStorage,
-- with the objects that it holds and what deleting one does), numbers and dates of JavaScript
-- (Runtime), and JSON with base64url (Codec).
--
-- A query in a transaction after a statement that has failed is refused by PostgreSQL: Queries says
-- by `continues` whether the database goes on, and linking an identity asks it.
--
-- Numbers. Ids, hashes, e-mails and other texts that the code only compares are natural numbers,
-- passwords and the texts of list queries and of idempotency records are lists of code units,
-- dates are milliseconds since the epoch as natural numbers, counters are natural numbers. A
-- request's hash stands in a record as one symbol above all code units.
--
-- Bounds. withTransactionRetry makes as many rounds as attempts are allowed, 3 unless the caller
-- says otherwise, which none does; the round after the last, where the code throws that retries are
-- exhausted, is never reached, for the last attempt throws its own error. The polling loop of
-- waitForCompletion goes over the finite list of stores that it sees before its deadline.
-- A cursor has at most 4096 code units, as in the code.
--
-- Not modelled: controllers, DTOs, guards and filters (glue to the framework), sending of mail and
-- push messages, queues, storage, logging and tracing (calls of external services), JSON and
-- cryptography (libraries), delays between attempts, the isolation of two transactions beyond the
-- interleavings above, foreign keys on insertion, listings of rows, the
-- profile as such and the service of its image.
pub mod Prelude
pub mod Db
pub mod Auth
pub mod Accounts
pub mod ListQuery
pub mod Redis
pub mod Idempotency
pub mod RateLimit
pub mod Rbac
pub mod History
