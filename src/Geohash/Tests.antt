-- ===== src/Geohash/Tests.antt =====
-- The theorems on cells at one point and one cell (core/src/geo/geohash.ts).
use ride_location_tracking_e.Common.{ℕ, ◌≡◌, ◌^◌, some, arith}
use ride_location_tracking_e.Common.Int.{pos, negsuc}
use ride_location_tracking_e.Domain.{LatLng}
use ride_location_tracking_e.Geohash.{GridCell, bit_split, encode, decode}
use ride_location_tracking_e.Geohash.Decode.{Near, encode-decode}

abbrev corner : GridCell
corner = record { row = 5; col = 15 }

abbrev san_francisco : LatLng
san_francisco = record { lat = pos 377749; lng = negsuc 1224193 }

encode-decode_example :
    (hash : ℕ) × (encode 10000 san_francisco 26 ≡ some hash)
    × Near 10000
        (2 ^ (bit_split 26).lat_bits)
        (decode hash 26).lat_error_deg
        (decode hash 26).lat
        san_francisco.lat
    × Near 10000
        (2 ^ (bit_split 26).lng_bits)
        (decode hash 26).lng_error_deg
        (decode hash 26).lng
        san_francisco.lng
encode-decode_example =
    encode-decode 10000 san_francisco 26 (omega arith) (omega arith) (omega arith)
      (omega arith, omega arith) (omega arith, omega arith)
