-- ===== src/Lib.antt =====
-- Ride location tracking and ETA engine: the core service (core/src) and the client code that mirrors it
-- (frontend/src). Riders request trips, the service matches each to a driver near the pickup, streams the
-- drivers' positions to the riders and dispatchers who follow them, and estimates times of arrival.
--
-- The parts, their files, and how they interact:
-- - Common: lists, maps and sets in insertion order, integers, Boolean tests; Interval is the timer of a job's loop,
--   which five of the files below have. Domain: the shared types of core/src/schemas and LatLng.
-- - Database: the rows of Postgres and the statements of core/src/repositories/trips.repository.ts and
--   drivers.repository.ts. Booking is what they keep, Rebooking what a status update can break.
-- - Live: the geo set and the state hashes in Redis (core/src/repositories/drivers.geo.repository.ts), and the
--   reconciliation job (core/src/services/reconciliation.service.ts), which evicts stale drivers from both stores.
-- - Drivers: core/src/services/drivers.service.ts, and the frontend's copy of its transition table
--   (frontend/src/driverStatusRules.ts). Overtaken is an update of a location while the reconciliation job runs.
-- - Lock: core/src/repositories/driver-lock.repository.ts over a key store.
-- - Matching: core/src/services/matching.service.ts, matching-score.ts, matching-config.ts and
--   driver-rating.service.ts. One attempt reads Database and Live, holds a Lock around each offer, and finalizes
--   in Database. Safety and Locks hold whatever happens and fails between its awaited calls; Quiet says what
--   it does when it is alone.
-- - Eta: core/src/services/eta.service.ts, eta-heuristic.ts, ml-eta-client.ts, osrm-client.ts, eta-config.ts and
--   core/src/repositories/eta.repository.ts.
-- - Subscriptions: core/src/ws/subscriptions.ts over a heap of subscriber objects, which its three indexes share.
--   It sends what Delta (core/src/ws/delta-compression.ts, frontend/src/ws/deltaCodec.ts) encodes, and counts it in
--   Bandwidth (core/src/ws/bandwidth-metrics.ts).
-- - Connections: the throttle and the registry of core/src/ws/driver-connections.ts, and core/src/ws/heartbeat.ts.
--   TripOffers: core/src/ws/trip-offers.ts. DriverOffer: frontend/src/hooks/driverOfferReducer.ts.
-- - Batch: core/src/ws/location-batch.ts and runtime-config.ts. A flush writes to Database and Live, broadcasts over
--   Subscriptions and updates Eta, one awaited call after the other; Flush is what it does when all of them
--   succeed, Failure when one throws, OneByOne compares it with unbatched updates.
-- - SubscribeRoute: core/src/routes/ws.ts and the subscription message of core/src/ws/messages.ts, over Database,
--   Subscriptions and the heartbeat of Connections. Answers is what a frame does alone, Late what may come between
--   its query and its end.
-- - DriverMessages: the frames of core/src/ws/driver-connections.ts and their messages in core/src/ws/messages.ts, over
--   Connections, TripOffers and Batch.
-- - TripTracking: frontend/src/hooks/tripTrackingReducer.ts and useTripTracking.ts, which hold a socket of Sockets
--   and decode what Delta encodes. Shown is the screen over any messages of a driver, Followed the screen over what
--   Subscriptions sends to the rider's socket, as Subscriptions/Outbox has it: Waiting for a trip that is matched
--   later, Flushed from the batch of Batch on, Driven from the frames of DriverMessages on.
-- - Sockets: the clients of these connections, frontend/src/ws/reconnectingSocket.ts, subscriberSocket.ts and
--   driverSocket.ts, with the sockets and timers that the browser keeps for them.
-- - Geohash and GeoIndex: core/src/geo/geohash.ts and core/src/geo/geohash-index.ts. GeoIndex/Search has the
--   searches, Candidates what the scan finds, Spread why that is enough, Radius and Nearest what the searches answer.
-- - Surge: core/src/services/surge.service.ts, surge-config.ts and core/src/repositories/surge.repository.ts, which
--   read Database and count by the cells of Geohash. Fare: core/src/services/fare.service.ts over Surge.
-- - Sharding: core/src/geo/regions.ts and core/src/repositories/sharded-driver-geo.repository.ts, a state of its own.
--
-- How the program is read. An id is a number. A coordinate counts an arbitrary fraction of a degree; distances,
-- durations, scores and weights are fixed-point numbers. Functions keep their names in snake_case, and a
-- statement, a handler or a transaction is one step on its state. Every loop runs over a list or counts down,
-- except that of nearestNeighbors, whose fuel is the greatest radius: each round doubles a positive radius. The
-- hash of a driver's id wraps at 32 bits as in the source.
--
-- Parameters, since their code is not here: the key store of Lock (Redis' SET PX NX, GET and DEL, with their
-- documented laws; Lock/Memory is one), the rows that GEOSEARCH answers, what fetch answers, the local hour, the
-- length of a message in bytes, and what other requests do between two awaited calls of a matching attempt. The
-- haversine formula (core/src/services/haversine.ts) is a parameter too, as is the cosine, since they stand on
-- trigonometry. A call that fails changes nothing, except the batched update of the estimates, of which any
-- entries may have ended.
--
-- Not modelled: the service and the repository of the riders and the trips service, which check that a row is there and
-- pass their arguments on, the helpers of the frontend's map, the HTTP routes, the shapes that the schemas check,
-- configuration, logging and metrics, the React components, the scripts, and the Python service. What a loop's timer
-- runs when it fires is an event of the part that it runs.
pub mod Common
pub mod Domain
pub mod Delta
pub mod Bandwidth
pub mod Subscriptions
pub mod Database
pub mod Live
pub mod Drivers
pub mod Lock
pub mod Matching
pub mod Eta
pub mod Connections
pub mod TripOffers
pub mod DriverOffer
pub mod Geohash
pub mod GeoIndex
pub mod Surge
pub mod Fare
pub mod Sharding
pub mod Batch
pub mod Sockets
pub mod SubscribeRoute
pub mod TripTracking
pub mod DriverMessages
