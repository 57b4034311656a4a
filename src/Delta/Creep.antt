-- ===== src/Delta/Creep.antt =====
-- A driver that moves by less than half a quantization step from one broadcast to the next
-- (core/src/ws/delta-compression.ts, frontend/src/ws/deltaCodec.ts).
use ride_location_tracking_e.Common.{
  ℕ, ◌*◌, ◌≡◌, refl, ap, Option, none, some, List, [], ◌∷◌, arith,
}
use ride_location_tracking_e.Common.Int.{
  ℤ, pos, negsuc, ◌+ℤ◌, ◌-ℤ◌, ◌≤ℤ◌, times, div_floor, round_div, int_laws,
}
use native.Mathlib.Nat.{div-eq_of_lt}
use ride_location_tracking_e.Domain.{LatLng}
use ride_location_tracking_e.Delta.{
  LastKnownState, EncodeMeta, encode_location_message, decode_location_message, Ends, deliver,
  deliver_all,
}

-- -step / 2 <= now - last < step / 2
abbrev pub Small : ℕ → ℤ → ℤ → Type 0
Small step last now =
    (times last 2 ≤ℤ times now 2 +ℤ pos step) × (times now 2 +ℤ pos 1 ≤ℤ times last 2 +ℤ pos step)

div_floor-eq-zero : (a : ℤ) (k : ℕ) → pos 0 ≤ℤ a → a +ℤ pos 1 ≤ℤ pos k → div_floor a k ≡ pos 0
unfolding div_floor
div_floor-eq-zero (pos n) k h l = ap pos (div-eq_of_lt (omega int_laws))
div_floor-eq-zero (negsuc n) k h l = absurd (omega arith)

no_step_sent :
    (step : ℕ) (last now : ℤ) → Small step last now → round_div (now -ℤ last) step ≡ pos 0
unfolding round_div
no_step_sent step last now s =
    div_floor-eq-zero (times (now -ℤ last) 2 +ℤ pos step) (2 * step) (omega int_laws)
      (omega int_laws)

stays :
    (step : ℕ) (last now shown : ℤ)
    → Small step last now
    → shown +ℤ times (round_div (now -ℤ last) step) step ≡ shown
stays step last now shown s = rw (no_step_sent step last now s) (omega int_laws)

-- Each update moves less than half a step from the one before it.
abbrev pub Creeps : ℕ → LatLng → List (LatLng × EncodeMeta) → Type 0
Creeps step last [] = Unit {0}
Creeps step last ((current, meta) ∷ us) =
    Small step last.lat current.lat × Small step last.lng current.lng × Creeps step current us

abbrev pub final_position : LatLng → List (LatLng × EncodeMeta) → LatLng
final_position last [] = last
final_position last ((current, meta) ∷ us) = final_position current us

-- A state at the position `at`.
abbrev pub Shows : LatLng → Option LastKnownState → Type 0
Shows p none = ⊥
Shows p (some s) = (s.lat ≡ p.lat) × (s.lng ≡ p.lng)

creep_step :
    (step : ℕ) (last shown : LatLng) (server client : Option LastKnownState) (current : LatLng)
    (meta : EncodeMeta)
    → Shows last server
    → Shows shown client
    → Small step last.lat current.lat
    → Small step last.lng current.lng
    → Shows shown
        (decode_location_message step client (encode_location_message step server current meta))
unfolding encode_location_message decode_location_message
creep_step step last shown (some s) (some c) current meta (e, f) (g, k) a b =
    rw (e, f, g, k)
      (stays step last.lat current.lat shown.lat a, stays step last.lng current.lng shown.lng b)
creep_step step last shown (some s) none current meta e h a b = elim h [ ]
creep_step step last shown none client current meta e h a b = elim e [ ]

-- However long a driver creeps, moving less than half a quantization step on each axis between two
-- broadcasts, the client goes on showing the position at which the creeping began, while the server
-- believes that it has sent the last one.
pub creep_is_lost :
    (step : ℕ) (start shown : LatLng) (e : Ends) (us : List (LatLng × EncodeMeta))
    → Shows start e.server
    → Shows shown e.client
    → Creeps step start us
    → Shows (final_position start us) (deliver_all step e us).server
      × Shows shown (deliver_all step e us).client
unfolding deliver_all deliver
creep_is_lost step start shown e [] s c k = (s, c)
creep_is_lost step start shown e ((current, meta) ∷ us) s c k =
    creep_is_lost step current shown (deliver step e (current, meta)) us (refl, refl)
      (creep_step step start shown e.server e.client current meta s c k.0 k.1) k.2
