-- ===== src/Lib.antt =====
-- NeuralPlus is a C++17 library for conversations with language models. A client (`AIClient`) sends the
-- history of a session to a provider, runs the tools that the model asks for, appends their results and
-- asks again, until the model is done or a limit is met. This library models that core and proves
-- what it guarantees. Paths are from the repository's root.
--
-- Parts and files
--   Outcome, Exec: errors (include/neuralplus/types.hpp) as values, and actions over a state that can
--     throw; Exec/Post has the rules for what holds after an action, thrown or returned.
--   Json: the values that pass through the JSON library, with look-up of members.
--   Types (include/neuralplus/types.hpp, src/types.cpp): Enums, Content and Message with their
--     factories, and Records, the plain structs with their defaults. Types/Validity: what a factory
--     returns.
--   Session (include/neuralplus/session.hpp, src/session.cpp): the history and the lease, one function
--     from a session to a session or an error per member. Session/Exclusion lets threads interleave
--     them. Session/Cache is `SessionState`.
--   Schema (src/client.cpp): `validate_schema_definition` and `validate_value_against_schema`, by
--     recursion on the schema; Schema/Totality joins them.
--   Tool (include/neuralplus/tool.hpp, src/tool.cpp): specifications, outputs and `FunctionTool`.
--   Tracing (include/neuralplus/tracing.hpp): events, and a tracer as a function over the state.
--     Tracing/Sinks (src/tracing.cpp) has the texts of events and the tracers; Sinks/Limit is about the
--     bytes that the file tracer writes.
--   Client (include/neuralplus/client.hpp, src/client.cpp): Config is the constructor, with what it leaves in
--     Config/Registry and Config/Sorting, and Config/Specs compares its check of a tool with that of
--     `FunctionTool`. Input has the checks before a generation. Usage adds token counts, with sums over
--     rounds in Usage/Totals. Execute runs tools: Execute/Guard is about one call and Execute/Order about
--     the calls of a response. Generate has the steps of a round, and Rounds the loop, the lease and the
--     `catch` clauses: `answer`, `conclude` and `tool_round` are the end of the loop's body.
--     Rounds/Results has the rules for its steps, Rounds/Invariant what the loop keeps, and
--     Rounds/Transcript what `generate` as a whole leaves behind; Rounds/Refusal is about the calls that do
--     not start.
--   Transport (include/neuralplus/transport.hpp, src/transport.cpp): requests and responses. Check has the
--     checks of texts, with the addresses of the local machine in Check/Loopback. Receive is the two
--     callbacks that libcurl hands the parts of a response to; Receive/Limits and Receive/Whole say what
--     they store, and Receive/Lines what a header line says. Send is `CurlHttpTransport` and `MockHttpTransport`, with the responses that `send`
--     returns in Send/Guarantees, a transfer as a whole in Send/Totals, and the options that are set
--     before it in Send/Prepared, which Send/Settings reads as what libcurl is told.
--   Provider (src/provider_common.cpp): what the provider clients share. Redact takes secrets out of texts
--     and JSON, described without its loop in Redact/Relation, and collects them from headers
--     (Redact/Collect); Headers, Credentials and Fields are the other helpers, and Base64 is
--     `base64_encode` and `base64_decode`, whose loops take three bytes, or four characters, a round.
--   Compatible (src/providers/openai_compatible.cpp): the client of servers that follow OpenAI's Chat
--     Completions. Request makes the body of a request, with the contents of a message in Parts, and
--     Response reads that of a response, with its contents in Contents, its tool calls in Calls, and what
--     both look at in Shapes; `generate_once` is the whole exchange.
--   Anthropic (src/providers/anthropic.cpp): the client of the Messages API. Request makes the body, with the
--     turns of a conversation in Request/Turns; Response reads an answer, with its token counts in
--     Response/Usage; Guarantees is about the errors of `generate_once`.
--   OpenAi (src/providers/openai.cpp): the client of the Responses API. Request makes the body, with
--     the members that options cannot change in Request/Fixed; Output reads the items of an answer's output,
--     and Response the answer; Guarantees is about its errors. Provider/History is the text of the system's
--     instruction, which three clients make the same way, and Provider/Blocks what a block of an answer gives.
--   Gemini (src/providers/gemini.cpp): the client of Google's Gemini API. Parts makes the parts of a message and
--     Request the body; Checks and Contents read a part of an answer, and Response the answer.
--   Models (src/models.cpp): the catalogue of known models.
--   Tests: concrete runs.
--
-- How the parts interact. `World` holds the session, the counter of run ids and the state `S` of the
-- application, which the provider, the tools and the tracers read and write. A provider client is
-- the parameter `generate_once`, which may return any response or throw any error; those of
-- Compatible, Anthropic, OpenAi and Gemini are made of a transport, which is a parameter there and
-- which `Transport.Send.send` is one of. Tools and tracers are arbitrary functions too. `plan` is
-- the choice of the environment for each batch of threads: the order in which they run, and after
-- how many of them `std::async` throws.
--
-- libcurl is the parameter `Curl` of Transport/Send: what it answers to the calls that set a request up,
-- and for a transfer the parts of the response in the order in which it hands them to the callbacks.
--
-- Bounds and fuel. `std::size_t` has 64 bits: token counts keep their overflow check, and ids come
-- from 64-bit counters that wrap. `rounds` recurses on the number of rounds that are left, which
-- starts at `max_model_rounds` as in the source, so that its last case is the `throw` below the
-- loop. `run_batches` has as fuel the number of calls, which is enough since each batch takes at
-- least one. `redact_loop` has as fuel the number of bytes of its input, since each round goes on by
-- at least one. The round number, the offset and the bytes that a tracer has written are unbounded
-- numbers here; they stay below the limits that `std::size_t` holds. A `double` is its 64-bit
-- pattern.
--
-- Not modelled. The JSON library's parser, printer and equality, libcurl and the environment
-- variables are parameters. A tool that locks the mutex of another is outside the model: an
-- execution is one atomic step, as the invocation mutex makes it for one tool. Timestamps of events,
-- memory exhaustion, and the overloads of `generate` that make a session of their own are left out.
-- The calls of the file system that the file tracer makes, and the text of a time stamp, are
-- parameters; the write of a line to the console or to syslog is left out.
pub mod Prelude
pub mod Outcome
pub mod Exec
pub mod Json
pub mod Types
pub mod Session
pub mod Schema
pub mod Tool
pub mod Tracing
pub mod Client
pub mod Transport
pub mod Provider
pub mod Compatible
pub mod Anthropic
pub mod OpenAi
pub mod Gemini
pub mod Models
pub mod Tests
