-- ===== src/Lib.antt =====
-- A model of the two services of the repository: the invoicing proxy under proxy-server/app and the
-- chat robot under server/app. Functions of the source are functions here, with their names less a
-- leading `_`; a handler that changes a database or calls out takes and returns the states of both.
--
-- The proxy receives callbacks of an invoicing vendor, stores and acknowledges them, and forwards
-- each issued invoice to the ERP, System A, by itself when a switch is on, or when an administrator
-- replays it. Its own callers send signed requests, which it authenticates, limits, and passes on
-- to the vendor with a token that it renews. The robot receives the messages of a chat, verifies
-- and stores them, and answers each by the handler that the text names.
--
-- Proxy/Forwarder      proxy-server/app/forwarder.py: Payload builds the payloads, Send sends them
--                      and merges the answers, Record writes the outcome to the event.
-- Proxy/Callbacks      proxy-server/app/endpoints/callbacks.py: Flat reads a body, Persist stores
--                      and acknowledges it, AutoForward is the task that it may start.
-- Proxy/Admin          proxy-server/app/admin.py: Replay is the replay of a callback, Events the routes
--                      that read them.
-- Proxy/Clients        proxy-server/app/admin.py, the clients of the proxy: Directory is what the
--                      routes promise, Registry what they keep, Enrolment how a client gets in.
-- Proxy/Auth           proxy-server/app/auth.py, `require_proxy_auth`.
-- Proxy/RateLimit      proxy-server/app/middleware.py, `RateLimitMiddleware`.
-- Proxy/RuntimeConfig  proxy-server/app/runtime_config.py, the switch and its cache.
-- Proxy/Kdcloud        proxy-server/app/kdcloud_client.py, the client of the vendor, with the
--                      settings of proxy-server/app/config.py.
-- Proxy/Tokens         proxy-server/app/token_manager.py, `TokenManager`: Grants and Manager are its
--                      code, Callers those that share a renewal, Background its loop.
-- Proxy/Service        the endpoints behind the rate limit and the authentication, as
--                      proxy-server/app/router.py and main.py put them together.
-- Proxy/Endpoints      proxy-server/app/endpoints: Bills translates the bills of invoicing.py, and
--                      Passing has its endpoints and those of vehicle.py and digital.py.
-- Robot/Config         server/app/config.py, the settings that the handlers read.
-- Robot/Message        server/app/models, the request, the response and the background tasks.
-- Robot/Signature      server/app/core/security.py.
-- Robot/Secret         server/app/core/deps.py, and `_resolve_robot_code` of
--                      server/app/api/yunzhijia.py.
-- Robot/Router         server/app/services/command_router.py.
-- Robot/Processor      server/app/services/message_processor.py.
-- Robot/Admin          server/app/api/admin.py with server/app/models/robot.py and
--                      server/app/core/admin_auth.py.
-- Robot/Passes         server/app/services/qrcode_generator.py and pass_cleanup.py.
-- Robot/TestSign       scripts/gen_test_sign.py.
-- Robot/Outbound       server/app/services/outbound.py.
-- Robot/Handlers       server/app/services/handlers/mys4s_handler.py: Plates finds the number
--                      plate, PassCard makes the request and the card of
--                      server/app/services/card_builder.py, Mys4s is the handler; Echo is
--                      echo_handler.py, and Api is api_handler.py with
--                      server/app/services/api_caller.py, and Ai is ai_handler.py with
--                      server/app/services/ai_caller.py.
-- Robot/Storage        server/app/services/storage.py.
-- Robot/Webhook        server/app/api/yunzhijia.py, `webhook`.
-- Robot/Service        the webhook over the handlers, and the background tasks after it.
-- Secrets              proxy-server/app/crypto.py and server/app/core/crypto.py, the same code.
-- Indexes              server/app/db/indexes.py and proxy-server/app/db_indexes.py.
-- Value, Bytes, Http   Python's dynamic values, bytes and integers, and a request.
-- Mongo                the database driver as an interface, what its manual says of it, and an
--                      implementation in memory; Keyed is about collections with a key.
-- Prelude              lists, texts and tests over native numbers, and code that may raise.
-- Examples             the theorems at concrete inputs.
--
-- Conventions. A value of JSON is a `Value`; integers from 0 on are `int`, and any other number is
-- known by what the code observes of it. An exception is a value of `Exc`, and a function that may
-- raise returns a `Result`; one that also changes a state is an `Effect`, which keeps what was
-- changed before a raise. A document of the database is a `Fields`, a dict in insertion order; a
-- time is an integer, in the unit that its module names. The clocks are arguments, one for each
-- reading. Logging is left out. The code of a stored robot is taken as a text, as the routes store
-- no other.
--
-- Code that is not in the repository is an argument: the driver (`Mongo`), the network (`post`),
-- the codecs and the cryptography (`Codec`, `Decoder`, `Wire`, `Crypto`, `Vault`, `Fernet`). A
-- theorem that needs more of it than its type says so among its hypotheses: that the driver does
-- what its manual says (`IsDocumented`), that no call of it raises but where a unique index of the
-- server may stand against it (`IsReachable`), that a write leaves the other collections
-- (`IsSeparate`), or that it enforces an index (`Enforces`). The handlers behind the router are an
-- argument of the processor and the webhook; Robot/Service puts the four handlers in their place.
-- Authentication and the rate limit stand before an endpoint and are not part of it; Proxy/Service
-- puts them together.
--
-- No loop needs fuel: the code iterates over lists, which is structural recursion here, and the one
-- function on fuel, `decimal`, gets one round more than the number, each round dividing it by ten.
--
-- Not modelled: start and shutdown, the connections and the health check, which only call
-- libraries, and the logging of requests.
pub mod Prelude
pub mod Value
pub mod Http
pub mod Bytes
pub mod Secrets
pub mod Indexes
pub mod Mongo
pub mod Proxy
pub mod Robot
pub mod Examples
