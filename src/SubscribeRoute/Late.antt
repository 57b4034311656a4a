-- ===== src/SubscribeRoute/Late.antt =====
-- A trip that is matched while a subscription to it waits (core/src/routes/ws.ts).
use ride_location_tracking_e.Common.{
  ℕ, ◌≡◌, refl, ◌∙◌, ap, subst, Bool, true, false, Option, none, some, List, [], ◌∷◌, ◌++◌, arith,
  for_each, Option-cases, inl, inr,
}
use ride_location_tracking_e.Common.Map
use ride_location_tracking_e.Database.{
  Db, Trip, find_trip_by_id, try_finalize_match, can_take, take_trip,
}
use ride_location_tracking_e.Database.Booking.{holds, get-update_row}
use ride_location_tracking_e.Subscriptions.{
  Registry, OutMessage, RawDriverLocationUpdate, notify_trip_matched, broadcast_driver_location,
}
use ride_location_tracking_e.Subscriptions.Index.{member}
use ride_location_tracking_e.Subscriptions.Effects.{by_driver-broadcast}
use ride_location_tracking_e.Subscriptions.Follows.{follows}
use ride_location_tracking_e.Subscriptions.Invariant.{Inv}
use ride_location_tracking_e.Subscriptions.Matches.{notify_trip_matched-Inv}
use ride_location_tracking_e.SubscribeRoute.{Route, asks_trip, answer, resume, subscribed_to_trip}
use ride_location_tracking_e.SubscribeRoute.Answers.{IsAnswered, trip-IsAnswered, of_trip}

-- A current subscription that follows no driver is in no driver's set.
unfollowed :
    (r : Registry) (s d j : ℕ) (trip : Option ℕ)
    → Inv r
    → follows r s ≡ some (none, trip)
    → Map.get r.by_socket s ≡ some j
    → member r.by_driver d j ≡ false
unfollowed r s d j trip v f e = elim (Option-cases (Map.get r.infos j)) [
  | inl g ↦ ground (arith, e, f, g, v.drivers d j)
  | inr (info, g) ↦ ground (arith, e, f, g, v.drivers d j)
]

module _ (is_open : ℕ → Bool) (byte_length : OutMessage → ℕ) (step : ℕ) where
  abbrev pub broadcast : Registry → ℕ × RawDriverLocationUpdate → Registry
  broadcast r b = broadcast_driver_location is_open byte_length step r b.0 b.1

  pub by_driver-broadcasts :
      (bs : List (ℕ × RawDriverLocationUpdate)) (r : Registry)
      → (for_each bs broadcast r).by_driver ≡ r.by_driver
  unfolding for_each
  by_driver-broadcasts [] r = refl
  by_driver-broadcasts (b ∷ bs) r =
      by_driver-broadcasts bs (broadcast r b)
      ∙ by_driver-broadcast is_open byte_length step b.1 r b.0

trip_taken :
    (db : Db) (now t d : ℕ)
    → (try_finalize_match db now t d).1 ≡ true
    → (can_take (Map.get db.trips t) ≡ true) × (holds (try_finalize_match db now t d).0 t d ≡ true)
unfolding try_finalize_match can_take take_trip
trip_taken db now t d e =
    (ground (arith, e), ground (arith, e, get-update_row db.trips t t (take_trip d now)))

-- The answer for an open trip that nobody drives.
answer_open :
    (t : ℕ) (row : Option Trip)
    → can_take row ≡ true
    → of_trip t row ≡ (some (some (none, some t)), subscribed_to_trip t none)
unfolding can_take
answer_open t none e = ground (arith, e)
answer_open t (some row) e = ground (arith, e)

-- The query ran before the match, and the handler resumes after it and after its notice.
abbrev pub resumed : (ℕ → Bool) → Route → ℕ → ℕ → ℕ → Db → Route
resumed is_open r socket t d db =
    resume is_open (record r { registry = notify_trip_matched is_open r.registry t d }) socket
      (answer db (asks_trip t))

module _ (is_open : ℕ → Bool) (r : Route) (socket t d now : ℕ) (db : Db) (v : Inv r.registry)
    (e : (try_finalize_match db now t d).1 ≡ true) where
  resumed-IsAnswered :
      IsAnswered is_open
        (record r { registry = notify_trip_matched is_open r.registry t d })
        socket
        (some (some (none, some t)), subscribed_to_trip t none)
        (resumed is_open r socket t d db)
  unfolding answer find_trip_by_id
  resumed-IsAnswered =
      subst
        (λ a.
          IsAnswered is_open (record r { registry = notify_trip_matched is_open r.registry t d })
            socket a (resumed is_open r socket t d db))
        (answer_open t (Map.get db.trips t) (trip_taken db now t d e).0)
        (trip-IsAnswered is_open
          (record r { registry = notify_trip_matched is_open r.registry t d }) socket t
          (Map.get db.trips t) (notify_trip_matched-Inv is_open t d r.registry v))

  -- If a trip is matched, and that is made known, between the query of a subscription to it and its end, then the
  -- trip has its driver, but the socket, once it is subscribed, follows no driver and is told that there is none; no
  -- driver's set has its subscription, whatever is broadcast from then on. The registry must keep its invariant.
  pub missed_match :
      (byte_length : OutMessage → ℕ) (step : ℕ) (bs : List (ℕ × RawDriverLocationUpdate))
      → is_open socket ≡ true
      → (holds (try_finalize_match db now t d).0 t d ≡ true)
        × (follows (resumed is_open r socket t d db).registry socket ≡ some (none, some t))
        × ((resumed is_open r socket t d db).replies
            ≡ r.replies ++ (socket, subscribed_to_trip t none) ∷ [])
        × ((j driver : ℕ)
            → Map.get (resumed is_open r socket t d db).registry.by_socket socket ≡ some j
            → member
                (for_each bs
                  (broadcast is_open byte_length step)
                  (resumed is_open r socket t d db).registry).by_driver
                driver
                j
              ≡ false)
  missed_match byte_length step bs o =
      let h = resumed-IsAnswered in
      let f : follows (resumed is_open r socket t d db).registry socket ≡ some (none, some t) =
        ground (arith, h.followed socket) in
      (
        (trip_taken db now t d e).1,
        f,
        ground (arith, h.told, o),
        λ j driver g.
            ap (λ index. member index driver j)
              (by_driver-broadcasts is_open byte_length step bs
                (resumed is_open r socket t d db).registry)
            ∙ unfollowed (resumed is_open r socket t d db).registry socket driver j (some t) h.valid
                f g,
      )
