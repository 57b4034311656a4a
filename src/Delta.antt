-- ===== src/Delta.antt =====
-- core/src/ws/delta-compression.ts and its client half, frontend/src/ws/deltaCodec.ts.
-- Coordinates count units of which `step` make one quantization step (1e-5 degrees), so the source's
-- doubles are read at any chosen resolution; `decode` returns `none` where the source throws.
pub mod Stream
pub mod Creep
mod Tests
use ride_location_tracking_e.Common.{
  ℕ, Option, none, some, Bool, true, false, if◌then◌else◌, or_default, List, [], ◌∷◌,
}
use ride_location_tracking_e.Common.Int.{ℤ, ◌+ℤ◌, ◌-ℤ◌, times, round_div}
use ride_location_tracking_e.Domain.{LatLng, DriverStatus, online, offline, busy}

pub record LastKnownState : Type 0 where
  pub lat : ℤ
  pub lng : ℤ
  pub status : DriverStatus

pub record EncodeMeta : Type 0 where
  pub driver_id : ℕ
  pub timestamp : ℕ
  pub status : DriverStatus

pub record FullLocationPayload : Type 0 where
  pub driver_id : ℕ
  pub lat : ℤ
  pub lng : ℤ
  pub timestamp : ℕ
  pub status : DriverStatus

-- `status = none` where the source leaves the field out.
pub record DeltaLocationPayload : Type 0 where
  pub driver_id : ℕ
  pub d_lat : ℤ
  pub d_lng : ℤ
  pub timestamp : ℕ
  pub status : Option DriverStatus

pub data LocationBroadcastPayload : Type 0 where
  location : FullLocationPayload → LocationBroadcastPayload
  delta : DeltaLocationPayload → LocationBroadcastPayload

-- `a === b` on statuses.
abbrev pub status_eq : DriverStatus → DriverStatus → Bool
status_eq online online = true
status_eq offline offline = true
status_eq busy busy = true
status_eq _ _ = false

-- `...(meta.status !== lastSent.status ? { status: meta.status } : {})`
pub changed_status : DriverStatus → DriverStatus → Option DriverStatus
changed_status now before = if status_eq now before then none else some now

unfoldable pub encode_location_message :
    ℕ → Option LastKnownState → LatLng → EncodeMeta → LocationBroadcastPayload
encode_location_message step none current meta = location (record {
  driver_id = meta.driver_id;
  lat = current.lat;
  lng = current.lng;
  timestamp = meta.timestamp;
  status = meta.status;
})
encode_location_message step (some last) current meta = delta (record {
  driver_id = meta.driver_id;
  d_lat = round_div (current.lat -ℤ last.lat) step;
  d_lng = round_div (current.lng -ℤ last.lng) step;
  timestamp = meta.timestamp;
  status = changed_status meta.status last.status;
})

unfoldable pub decode_location_message :
    ℕ → Option LastKnownState → LocationBroadcastPayload → Option LastKnownState
decode_location_message step known (location m) =
    some (record { lat = m.lat; lng = m.lng; status = m.status })
decode_location_message step none (delta m) = none
decode_location_message step (some known) (delta m) = some (record {
  lat = known.lat +ℤ times m.d_lat step;
  lng = known.lng +ℤ times m.d_lng step;
  status = or_default m.status known.status;
})

-- What the server remembers of a subscriber after a broadcast: `{ ...current, status }`.
abbrev pub sent_state : LatLng → EncodeMeta → LastKnownState
sent_state current meta = record { lat = current.lat; lng = current.lng; status = meta.status }

-- Both ends of one subscription.
pub record Ends : Type 0 where
  pub server : Option LastKnownState
  pub client : Option LastKnownState

unfoldable pub fresh_ends : Ends
fresh_ends = record { server = none; client = none }

unfoldable pub deliver : ℕ → Ends → LatLng × EncodeMeta → Ends
deliver step e (current, meta) = record {
  server = some (sent_state current meta);
  client =
      decode_location_message step e.client (encode_location_message step e.server current meta);
}

unfoldable pub deliver_all : ℕ → Ends → List (LatLng × EncodeMeta) → Ends
deliver_all step e [] = e
deliver_all step e (u ∷ us) = deliver_all step (deliver step e u) us
