-- ===== src/Lib.antt =====
-- Verification of the AI support agent builder: a multi-tenant service that ingests documents,
-- retrieves their chunks for a question, and streams an answer with citations.
--
-- The parts and how they interact. An upload (api/src/routes/documents.ts) stores the bytes under
-- the tenant's key (api/src/storage), records a row and enqueues a job. The worker (api/src/worker)
-- parses the bytes (api/src/ingestion/parsing), cuts the text into chunks with offsets
-- (api/src/ingestion/chunking) and embeds them, each call to the embedding service retried
-- (api/src/util/retry.ts). A question (api/src/routes/chat.ts) passes the rate limit, brings hits,
-- passes the threshold gate, and is answered from numbered sources; the marks in the answer become
-- citations, which anchor in the offsets that the parser laid down. The administration
-- (api/src/routes/assistants.ts) sets the threshold of the gate, publishes an assistant and mints
-- the API keys that are exchanged for tokens; the playground shows what the gate decides. The admin
-- application (admin) forwards its pages' requests with the token of the session's cookie, and its
-- pages read the streams of the API.
--
-- Which file models which part:
--   Prelude, Text, Number, Effects  shared: lists over the native numbers, texts as lists of UTF-16
--     code units with the string methods and regular expressions of the source, doubles as far as
--     they are compared, and state passing with errors.
--   Parsing     api/src/ingestion/parsing: one module for each format, `assemble`, `parseDocument`.
--   Chunking    api/src/ingestion/chunking: tokenizer.ts, `splitOversizedBlock`, `chunkDocument`.
--   Retry       api/src/util/retry.ts and api/src/providers/embed-errors.ts.
--   RateLimit   api/src/ratelimit/redis-rate-limiter.ts and api/src/middleware/rate-limit.ts.
--   Chat        api/src/chat, api/src/providers/claude-chat.ts and api/src/routes/chat.ts.
--   Ingest      api/src/worker: the rows (World), `PrismaDocumentStatusStore` (Store), the stages
--     and the resumable loop (Pipeline).
--   Documents   api/src/documents and api/src/routes/documents.ts.
--   Storage     api/src/storage.
--   Retrieval   api/src/retrieval: the checks in front of the vector search, and its query.
--   Accounts    api/src/auth, api/src/routes/auth.ts and api/src/middleware/tenant-context.ts.
--   Config      api/src/config.ts.
--   Assistants  api/src/routes/assistants.ts, with `generateApiKey` of api/src/auth/api-key.ts.
--   Playground  api/src/routes/playground.ts.
--   Providers   api/src/providers: the OpenAI embedder and the identity reranker.
--   Admin       admin: the parser of event streams (Sse), the pages for documents, the playground
--     and the settings, the forms for login and signup (Forms), the paths of the middleware
--     (Paths), and the route handlers in front of the API (Bff).
--   Claims      the claims of a token (api/src/auth/tenant-token.ts) and the admin test.
--   Tests       the theorems at concrete inputs.
--
-- How the state corresponds. A handler or a loop is a function on a record of its variables, and
-- each of its branches is a branch of the function. Promises that are awaited in turn are sequenced
-- by `Eff` (Effects), which keeps the state an error leaves behind; what can interleave (the
-- client's end, timers, heartbeats, ticks) is a list of turns in any order. A thrown error is a
-- value: `Parsed`, `Ran`, `Call`, or `none` where the message does not matter. Rows are visible to
-- a lookup only under their tenant, as the row-level security of the database has it. Identifiers of
-- documents, and those of the vector search, are compared without case, as the database does;
-- elsewhere identifiers are compared as they are written, which is in lower case by the server.
--
-- Bounds and fuel. The embed loop runs on as many rounds as there are chunks, and a round takes at
-- least one; the loop over PDF pages runs on the number of pages to scan; `decimal` runs on one
-- round more than its number, and each divides by ten. The retry loop runs on the attempts left.
-- The parser of event streams runs on as many rounds as the buffer has units, and the embedder on as
-- many as there are texts. All other recursion is on a list. Counts and offsets are natural numbers,
-- far below the 2 ^ 53 up to which the source's numbers are exact; the token bucket counts in exact
-- fractions of a token, where the script in Redis computes in doubles and stores 14 digits. A
-- double is a multiple of 2 ^ -1074, as every finite one is.
--
-- Parameters: the tokenizer, pdfjs and mammoth, the embedding service, the clients of OpenAI and of
-- S3, the model's stream, `localeCompare`, `randomUUID`, the random part of a key and the hashes,
-- the order by distance and the similarity of vectors, the SQL functions for accounts, argon2,
-- `encodeURIComponent`, the reading of addresses and numbers in the environment with zod's
-- messages, the JSON texts of frames and bodies, and jose, of which two facts are used: a signed
-- token is compact, and it verifies, with its payload, under the secret that signed it. Of the
-- others these facts are used: the JSON text of a frame is read back as what it was written from;
-- OpenAI answers a batch with the vector of each text under the text's index, in any order; a bucket
-- of S3 keeps what is put until it is deleted, a missing object is an error, of status 404 for its
-- head, and an outage is an error of another kind that changes no object; `localeCompare` gives
-- swapped texts the opposite sign; ordering rows loses and invents none.
--
-- Not modelled: the index of the vector search, the SQL functions, the markup of the admin pages, the
-- schemas of their forms, the mobile application, server start, time stamps and logs.
pub mod Prelude
pub mod Text
pub mod Number
pub mod Retry
pub mod RateLimit
pub mod Parsing
pub mod Chunking
pub mod Chat
pub mod Claims
pub mod Documents
pub mod Storage
pub mod Retrieval
pub mod Accounts
pub mod Config
pub mod Providers
pub mod Playground
pub mod Assistants
pub mod Admin
pub mod Tests
pub mod Effects
pub mod Ingest
