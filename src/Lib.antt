-- ===== src/Lib.antt =====
-- A model of gateway-realtime, a NestJS gateway that carries events between the browsers and the
-- devices of a tenant over WebSocket (src/modules/websocket), with a rate limiter in front
-- (src/modules/ratelimitters).
--
-- A client connects: the rate limiter and the guard let it in or it is closed; the session manager
-- gives it a session, new, resumed or taken over; the session's lifecycle sends it the events that
-- are pending for it and tells the browsers of its tenant. A message of the client is looked up by
-- its label, checked, turned into a payload (by a request to the product's own server, where the
-- class does that) and sent to the receivers. By its QoS an event is also kept in the event store,
-- until each of its users has it. A heartbeat, a round of retries and the store's timers run beside.
--
-- The files, by the code they model:
--   Common            JavaScript's Map and Set, tests and lists over the native numbers
--   Json              JSON objects and the messages `{ event, ...payload, meta }`
--   EventRecord       schema/event.record.ts
--   EventStore        services/event-store.service.ts: EventStoreService; State has its fields, Create,
--                     Limits, Remove, Marks, Queries, Cleanup and Stats its methods, Steps the
--                     histories of the store
--   Principal         commons/schemas and commons/enums
--   Session           schema/websocket.session.ts, types/ws-client.type.ts
--   Registry          services/websocket-registry.service.ts: WebSocketSessionRegistry
--   World             the state that the services share
--   SessionManager    services/websocket-sesi-manager.service.ts: WebSocketSessionManager
--   Lifecycle         lifesycles/*.ts and services/lifecycle-factory.service.ts
--   WsError           helpers/normalize-error.ts, commons/exceptions/ws-error.exception.ts
--   Gateway           websocket.gateway.ts: WebsocketGateway; History has the histories of the gateway
--   Heartbeat         services/websocket-hearbeat.service.ts: WebSocketHeartbeatService
--   Retry, Feedback   services/event-retry-heartbeat.service.ts: EventRetryService, its rounds and its
--                     listener
--   Events            events/**: the event classes (Classes), who may send and receive (Helpers,
--                     Receivers), the payload (Payload), the QoS (Dispatch), `execute` (Execute) and
--                     the binary events (Binary)
--   Message           services/websocket-message.service.ts: WebSocketMessageService
--   Webhook           the requests of webhook/services/absensi-api.service.ts and bell-api.service.ts
--   Auth              auth/strategies/hmac-auth.strategy.ts with services/device.service.ts (Hmac,
--                     Device), services/refresh-token.service.ts and `refresh` of
--                     services/auth.service.ts (RefreshToken), all in src/modules/auth
--   RateLimit         ratelimitters/**: storage, service, key extractors and guards
--
-- Paths are those of src/modules/websocket unless they say another directory. Functions have the
-- names of the code in snake case. Objects that the code shares, sessions and clients, have numbers,
-- and a pointer is a number. A handler takes the state and gives the new one; what it sends to a
-- socket is a list in the state; an exception is a value. `Date.now()`, `Math.random()` and
-- `randomUUID()` are arguments, and times are natural numbers of milliseconds. `readyState` is what
-- the peer and the library make it, between the handlers. There is no fuel: loops go over lists.
--
-- Parameters are the database, the validator of payloads, the HTTP client and its answers,
-- `JSON.parse`, SHA-256, the library that signs tokens and the addition of days in a time zone. A
-- handler runs to its end before the next begins, what it awaits being answered at once; the order
-- of the handlers is any. Only a refresh of tokens is also modelled statement by statement, with the
-- statements of several calls in any order and with statements that the database refuses
-- (Auth/RefreshToken/Overlap). The emitter calls its listener within the call of the store that
-- emits; the listener does not touch the store, so that its outputs are made when that call is done.
--
-- Not modelled: the authentication of browsers and the choice of a strategy (the outcome of the
-- authentication is an argument of `handle_connection`), the login, the notifications, the mail and
-- Firebase providers, the modules, entities and DTO classes, and the store's getStats and dumpStore,
-- which print.
pub mod Auth
pub mod Common
pub mod EventRecord
pub mod EventStore
pub mod Events
pub mod Feedback
pub mod Gateway
pub mod Heartbeat
pub mod Json
pub mod Lifecycle
pub mod Message
pub mod Principal
pub mod RateLimit
pub mod Registry
pub mod Retry
pub mod Session
pub mod SessionManager
pub mod Webhook
pub mod World
pub mod WsError
