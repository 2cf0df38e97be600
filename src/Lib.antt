-- ===== src/Lib.antt =====
-- omni-model is a proxy that speaks the OpenAI API to applications and forwards each request to the
-- model provider that a rule chooses. This library models the part of packages/core/src that decides:
-- what a request may spend, who may be served at once, where a request goes, which answers and keys
-- are remembered, what is logged, and how a request is read, served and answered.
--
-- Server.Auth (server/auth.ts) decides who the user is and whether the app may call, Server.Clients
-- (server/writekey.ts, with Server.KeyShape for writekeys/keys.ts) which application it is, and
-- Server.PublicPath which paths need neither; Server.Lifecycle (server/lifecycle.ts) counts the
-- requests in flight for a shutdown. ConfigStore (configstore/memory.ts) keeps the revisions
-- of the configuration, and Runtime.Holder (runtime/holder.ts) holds the bundle that is made of it
-- and serves. Before a document is saved, Secrets.Credentials (secrets/credentials.ts) puts its
-- credentials into the encrypted store of Secrets.Store (secrets/store.ts), which seals them with
-- Secrets.Envelope (secrets/envelope.ts) under the keys of Secrets.Keyring (secrets/keyring.ts);
-- Secrets.Resolver (secrets/resolver.ts) puts the values back when a bundle is made.
--
-- A request then has `RequestFacts` (Facts, packages/core/src/routing/types.ts). The token
-- limiter (RateLimit.Limiter, ratelimit/limiter.ts) reads the counters of the storage adapter
-- (Storage, storage/types.ts) before the request runs and adds to them after it; the concurrency
-- limiter (RateLimit.Concurrency, ratelimit/concurrency.ts) holds a slot on another counter meanwhile.
-- Both take any adapter; the in-process one is Storage.Memory (storage/memory.ts), with the laws that
-- the limiters rely on in Storage.Memory.Laws and how long its entries last in
-- Storage.Memory.Lifetimes. The router (Routing, routing/router.ts) picks the rule
-- that serves the request. The write keys of applications (WriteKeys, writekeys/types.ts) live in a
-- store (WriteKeys.Memory, writekeys/memory.ts) behind a cache (WriteKeys.Cached,
-- writekeys/cache.ts). Responses may be kept in the prompt cache (Cache.Memory, cache/memory.ts), and
-- every request is logged through the buffer (Logs.Buffer, logs/buffer.ts), with text that
-- Logs.Content (logs/content.ts) caps.
--
-- The handlers put these together. Server.JsonObject (`readJsonObject` of server/routes/chat.ts) reads
-- a body, and Server.InputLimit refuses it by the estimate of Util.InputTokens (util/input-tokens.ts);
-- Server.Bodies validates what was read, Server.Facts (server/facts.ts) makes the facts, and
-- Server.Handlers (server/routes/chat.ts and embeddings.ts) takes a slot, calls the pipeline, charges
-- the budget, stores the answer and gives the slot back. The pipeline is Server.Pipeline with
-- Server.Embeddings (server/pipeline.ts): the limit, the route, the cache, the provider and its
-- fallback. A provider is what Providers.Anthropic (providers/anthropic.ts) models: Client asks the
-- upstream, Messages and Request translate what is asked, Completion a whole answer and Stream
-- (over the state of Events) a streamed one, with Providers.Shared (providers/shared.ts) for its
-- errors and Providers.Wire (openai/types.ts) for the types of requests and chunks; Stream.Message
-- is the message that both forms stand for, and what a client puts together. Server.Response
-- (server/response.ts) redacts what goes out. Server.Effects has their common monad `Run`: a result
-- or what was thrown, with the list of the acts (a report to the observer, a call of a provider, a
-- slot taken, a charge, an entry stored) in their order. Streams are read and written by Util.Sse
-- (util/sse.ts).
--
-- Errors is errors.ts, Util.Duration is util/duration.ts, and Prelude holds what the modules share.
-- Tests runs the models on small inputs.
--
-- Names follow the source in snake case: `check` is `check`, `recordUsage` is `record_usage`,
-- `acquire` is `acquire`, `unreachableRules` is `unreachable_rules`; `get` and `delete` of a store are
-- `read_value` and `remove` beside the map's own `get` and `delete`, and the prompt cache's `get` is
-- `read_entry`. A class is a record of its fields, a method a function from the state to its answer and
-- the next state. A `Map` is an association list in insertion order (Prelude.Dict). Times are
-- milliseconds on the natural numbers, read once for each call. An asynchronous call that may fail
-- answers an option or a result. Where the order of awaits matters (the concurrency limiter, the log
-- buffer, with its steps in Logs.Buffer.Events, and the lookups of WriteKeys.Cached), the model is a
-- step for each stretch between two awaits. A counter is a number or NaN, as
-- `Number(text)` gives (Prelude.Number); whole numbers are unbounded, so the model says nothing of
-- sums beyond 2^53. A text that is cut or scanned is a list of code points or of bytes. Every loop
-- runs over a list or a count, except that of the event parser (Util.Sse, `feed_loop`), which is
-- given as many rounds as the buffer has characters: a round takes at least two of them off.
--
-- Parameters stand for what is not in the repository: the expression engine (a compiled expression
-- is a function of the facts that gives a Boolean, another value, or throws), the digest of a write
-- key and of a cached request, the log writer, the size of a cached response, the text encoder and
-- decoder, the lower case of a text, the parser and printer of JSON, what a verifier makes of a
-- request, the building of a bundle, what a provider answers to a call, and the encryption library
-- with what it draws at random, whose sealed texts are of a type of their own. For Anthropic's client
-- what `fetch` comes to is a function of the body that is sent, and JSON's values are of a type of
-- their own; a temperature is in thousandths.
--
-- The schema's validation comes before the models. Logging to the console is left out, except the
-- router's warning. Of the handlers, the log row and the response's headers are left out, and a stream
-- is taken as a whole: its chunks, and whether it broke off. In Anthropic's client, a client that
-- hangs up, a stream of the upstream that breaks off and `listModels` are left out.
--
-- Not modelled: the listening HTTP server, the clients of OpenAI and Google, configuration loading,
-- Postgres, the admin API and the dashboard.
pub mod Prelude
pub mod Storage
pub mod Errors
pub mod Facts
pub mod Util
pub mod RateLimit
pub mod Routing
pub mod Cache
pub mod WriteKeys
pub mod Logs
pub mod Server
pub mod ConfigStore
pub mod Runtime
pub mod Secrets
pub mod Providers
mod Tests
