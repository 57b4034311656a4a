-- ===== src/Delta/Tests.antt =====
-- Runs of the codec, and the theorems at concrete streams.
use ride_location_tracking_e.Common.{◌≡◌, refl, some, List, [], ◌∷◌, arith}
use ride_location_tracking_e.Common.Int.{
  ℤ, pos, negsuc, ◌+ℤ◌, ◌-ℤ◌, times, div_floor, round_div, int_laws,
}
use ride_location_tracking_e.Domain.{LatLng, online, busy}
use ride_location_tracking_e.Delta.{
  EncodeMeta, encode_location_message, decode_location_message, changed_status,
}
use ride_location_tracking_e.Delta.{Ends, fresh_ends, deliver, deliver_all}
use ride_location_tracking_e.Delta.Stream.{Tracks, stream_bound}
use ride_location_tracking_e.Delta.Creep.{Creeps, Shows, creep_is_lost}

abbrev place : ℤ → ℤ → LatLng
place a b = record { lat = a; lng = b }

abbrev calm : EncodeMeta
calm = record { driver_id = 7; timestamp = 1000; status = online }

abbrev engaged : EncodeMeta
engaged = record { driver_id = 7; timestamp = 2000; status = busy }

abbrev trail : List (LatLng × EncodeMeta)
trail =
    (place (pos 1004) (negsuc 499), calm)
    ∷ (place (pos 1008) (negsuc 499), engaged)
    ∷ (place (pos 1012) (negsuc 499), engaged)
    ∷ []

abbrev start : LatLng × EncodeMeta
start = (place (pos 1000) (negsuc 499), calm)

-- Three moves of 4 units, of which 10 make a step: the position is 12 units off, the status is not.
trail_run :
    (deliver_all 10 fresh_ends (start ∷ trail)).client
    ≡ some (record { lat = pos 1000; lng = negsuc 499; status = busy })
unfolding deliver_all deliver fresh_ends encode_location_message decode_location_message
    changed_status round_div div_floor times ◌+ℤ◌ ◌-ℤ◌
trail_run = refl

stream_bound_example :
    Tracks 10 3
      (deliver_all 10 fresh_ends (start ∷ trail)).server
      (deliver_all 10 fresh_ends (start ∷ trail)).client
stream_bound_example = stream_bound 10 start trail (omega arith)

abbrev both_at_start : Ends
both_at_start = record {
  server = some (record { lat = pos 1000; lng = negsuc 499; status = online });
  client = some (record { lat = pos 1000; lng = negsuc 499; status = online });
}

creep_is_lost_example :
    Shows (place (pos 1012) (negsuc 499)) (deliver_all 10 both_at_start trail).server
    × Shows (place (pos 1000) (negsuc 499)) (deliver_all 10 both_at_start trail).client
creep_is_lost_example =
    creep_is_lost 10 (place (pos 1000) (negsuc 499)) (place (pos 1000) (negsuc 499)) both_at_start
      trail (refl, refl) (refl, refl) trail_creeps
  where
    trail_creeps : Creeps 10 (place (pos 1000) (negsuc 499)) trail
    trail_creeps = omega int_laws
