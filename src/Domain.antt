-- ===== src/Domain.antt =====
-- The types that the components share (core/src/schemas, core/src/services/haversine.ts).
-- An id (a UUID string, only ever compared) is a number; a coordinate counts an arbitrary unit of
-- a degree, on which each component that scales it has a parameter.
use ride_location_tracking_e.Common.Int.{ℤ}

pub record LatLng : Type 0 where
  pub lat : ℤ
  pub lng : ℤ

pub data DriverStatus : Type 0 where
  online offline busy : DriverStatus

pub data TripStatus : Type 0 where
  requested matched in_progress completed cancelled : TripStatus
