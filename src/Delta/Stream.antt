-- ===== src/Delta/Stream.antt =====
-- A whole stream of broadcasts to one subscriber: the server deltas against what it last sent, the
-- client against what it last decoded (core/src/ws/subscriptions.ts, the body of the broadcast loop;
-- frontend/src/ws/deltaCodec.ts).
use ride_location_tracking_e.Common.{
  ℕ, suc, ◌+◌, ◌*◌, ◌<◌, ◌≡◌, refl, Option, none, some, List, [], ◌∷◌, arith, length, or_default,
  subst,
}
use ride_location_tracking_e.Common.Int.{
  ℤ, ◌+ℤ◌, ◌-ℤ◌, times, round_div, int_laws, Within, round_div-Within,
}
use ride_location_tracking_e.Domain.{LatLng, DriverStatus}
use ride_location_tracking_e.Delta.{
  LastKnownState, EncodeMeta, encode_location_message, decode_location_message, changed_status,
  sent_state, Ends, fresh_ends, deliver, deliver_all,
}

-- The client shows the server's status, and is off by `k` half steps at most on each axis.
pub record IsTracking (step k : ℕ) (server client : LastKnownState) : Type 0 where
  pub lat_close : Within (k * step) client.lat server.lat
  pub lng_close : Within (k * step) client.lng server.lng
  pub same_status : client.status ≡ server.status

-- Both ends have a state, and the client's tracks the server's.
abbrev pub Tracks : ℕ → ℕ → Option LastKnownState → Option LastKnownState → Type 0
Tracks step k (some server) (some client) = IsTracking step k server client
Tracks step k _ _ = ⊥

status_catches_up :
    (now before shown : DriverStatus)
    → shown ≡ before
    → or_default (changed_status now before) shown ≡ now
unfolding changed_status
status_catches_up now before shown e = ground arith

axis_close :
    (step k : ℕ) (now last shown : ℤ)
    → 0 < step
    → Within (k * step) shown last
    → Within (suc k * step) (shown +ℤ times (round_div (now -ℤ last) step) step) now
axis_close step k now last shown h w = omega (int_laws, round_div-Within (now -ℤ last) step h)

track_update :
    (step k : ℕ) (server client : Option LastKnownState) (current : LatLng) (meta : EncodeMeta)
    → 0 < step
    → Tracks step k server client
    → Tracks step
        (suc k)
        (some (sent_state current meta))
        (decode_location_message step client (encode_location_message step server current meta))
unfolding encode_location_message decode_location_message
track_update step k (some s) (some c) current meta h t = record {
  lat_close = axis_close step k current.lat s.lat c.lat h t.lat_close;
  lng_close = axis_close step k current.lng s.lng c.lng h t.lng_close;
  same_status = status_catches_up meta.status s.status c.status t.same_status;
}
track_update step k (some s) none current meta h t = elim t [ ]
track_update step k none client current meta h t = elim t [ ]

deliver_all-Tracks :
    (step k n : ℕ) (e : Ends) (us : List (LatLng × EncodeMeta))
    → 0 < step
    → length us + k ≡ n
    → Tracks step k e.server e.client
    → Tracks step n (deliver_all step e us).server (deliver_all step e us).client
unfolding deliver_all deliver
deliver_all-Tracks step k n e [] h q t =
    let q' : k ≡ n = omega arith in subst (λ m. Tracks step m e.server e.client) q' t
deliver_all-Tracks step k n e ((current, meta) ∷ us) h q t =
    deliver_all-Tracks step (suc k) n (deliver step e (current, meta)) us h (omega arith)
      (track_update step k e.server e.client current meta h t)

first_sight :
    (step : ℕ) (u : LatLng × EncodeMeta)
    → Tracks step 0 (deliver step fresh_ends u).server (deliver step fresh_ends u).client
unfolding deliver fresh_ends encode_location_message decode_location_message
first_sight step (current, meta) = record {
  lat_close = omega int_laws;
  lng_close = omega int_laws;
  same_status = refl;
}

-- After the first broadcast to a subscriber and any `us` further ones, the client shows the server's
-- status, and on each axis its position is off by at most half a quantization step for each of `us`.
pub stream_bound :
    (step : ℕ) (first : LatLng × EncodeMeta) (us : List (LatLng × EncodeMeta))
    → 0 < step
    → Tracks step
        (length us)
        (deliver_all step fresh_ends (first ∷ us)).server
        (deliver_all step fresh_ends (first ∷ us)).client
unfolding deliver_all
stream_bound step first us h =
    deliver_all-Tracks step 0 (length us) (deliver step fresh_ends first) us h (omega arith)
      (first_sight step first)
