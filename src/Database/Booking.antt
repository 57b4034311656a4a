-- ===== src/Database/Booking.antt =====
-- No statement of core/src/repositories/trips.repository.ts or drivers.repository.ts books a driver twice,
-- as long as no status update puts a driver online who is still on a trip.
use ride_location_tracking_e.Common.{
  ℕ, ◌≡◌, refl, Bool, true, false, ◌&&◌, Option, none, some, List, [], ◌∷◌, arith, ◌==◌,
  if◌then◌else◌, opt_is, Option-cases, Bool-cases, inl, inr, not, for_each_inv,
}
use ride_location_tracking_e.Common.Map
use ride_location_tracking_e.Common.Map.{Map, get-set}
use ride_location_tracking_e.Domain.{LatLng, DriverStatus, online, offline, busy}
use ride_location_tracking_e.Database.{
  Db, Trip, Driver, CreateTripInput, CreateDriverInput, CancellationReason, empty_db, insert_trip,
  insert_driver, try_finalize_match, mark_trip_unmatched, update_driver_status,
  update_driver_location, batch_update_locations, force_offline, update_row, is_active, is_online,
  can_take, can_drive, take_trip, set_status, set_location, is_requested, cancel_trip, new_trip,
  new_driver,
}

abbrev pub map_row {ℓ} : {A : Type ℓ} → (A → A) → Option A → Option A
map_row f none = none
map_row f (some a) = some (f a)

pub get-update_row {ℓ} :
    {A : Type ℓ} (table : Map A) (id j : ℕ) (f : A → A)
    → Map.get (update_row table id f) j
      ≡ (if id == j then map_row f (Map.get table j) else Map.get table j)
unfolding update_row
get-update_row table id j f = elim (Option-cases (Map.get table id)) [
  | inl e ↦ rw (e, update_row) (ground (arith, e))
  | inr (a, e) ↦ rw (e, update_row) (ground (arith, e, get-set table id j (f a)))
]

-- The trip is active and is the driver's.
abbrev pub trip_holds : Option Trip → ℕ → Bool
trip_holds none d = false
trip_holds (some t) d = opt_is t.driver_id d && is_active t.status

abbrev pub holds : Db → ℕ → ℕ → Bool
holds db t d = trip_holds (Map.get db.trips t) d

-- The driver's row is there, and is not 'online'.
abbrev pub is_engaged : Option Driver → Bool
is_engaged none = false
is_engaged (some d) = not (is_online d.status)

pub record IsBooked (db : Db) : Type 0 where
  -- A driver is on one active trip at most.
  pub exclusive : (t u d : ℕ) → holds db t d ≡ true → holds db u d ≡ true → t ≡ u
  -- A driver on an active trip cannot be matched to another.
  pub engaged : (t d : ℕ) → holds db t d ≡ true → is_engaged (Map.get db.drivers d) ≡ true

pub data Statement : Type 0 where
  create_trip : ℕ → ℕ → CreateTripInput → Statement
  create_driver : ℕ → ℕ → CreateDriverInput → Statement
  finalize : ℕ → ℕ → ℕ → Statement
  give_up : ℕ → CancellationReason → Statement
  set_driver_status : ℕ → ℕ → DriverStatus → Statement
  move_driver : ℕ → ℕ → LatLng → Statement
  move_batch : ℕ → List (ℕ × LatLng) → Statement
  evict : ℕ → ℕ → Statement

unfoldable pub execute : Db → Statement → Db
execute db (create_trip id now input) = insert_trip db id now input
execute db (create_driver id now input) = insert_driver db id now input
execute db (finalize now t d) = (try_finalize_match db now t d).0
execute db (give_up t reason) = (mark_trip_unmatched db t reason).0
execute db (set_driver_status now d s) = update_driver_status db now d s
execute db (move_driver now d p) = update_driver_location db now d p
execute db (move_batch now entries) = batch_update_locations db now entries
execute db (evict now d) = force_offline db now d

-- Fresh ids are unused, and a driver who is put online is on no active trip.
abbrev pub Allowed : Db → Statement → Type 0
Allowed db (create_trip id now input) = Map.get db.trips id ≡ none
Allowed db (create_driver id now input) = Map.get db.drivers id ≡ none
Allowed db (set_driver_status now d online) = (t : ℕ) → holds db t d ≡ false
Allowed db _ = Unit {0}

module _ (db : Db) (v : IsBooked db) where
  insert_trip-IsBooked :
      (id now : ℕ) (input : CreateTripInput)
      → Map.get db.trips id ≡ none
      → IsBooked (insert_trip db id now input)
  unfolding insert_trip
  insert_trip-IsBooked id now input e = record {
    exclusive = λ t u d h k. ground (
      arith,
      v.exclusive t u d,
      h,
      k,
      e,
      get-set db.trips id t (new_trip now input),
      get-set db.trips id u (new_trip now input),
    );
    engaged =
        λ t d h. ground (arith, v.engaged t d, h, e, get-set db.trips id t (new_trip now input));
  }

  insert_driver-IsBooked :
      (id now : ℕ) (input : CreateDriverInput)
      → Map.get db.drivers id ≡ none
      → IsBooked (insert_driver db id now input)
  unfolding insert_driver
  insert_driver-IsBooked id now input e = record {
    exclusive = v.exclusive;
    engaged =
        λ t d h. ground (arith, v.engaged t d h, e, get-set db.drivers id d (new_driver now input));
  }

  finalize-IsBooked : (now t d : ℕ) → IsBooked (try_finalize_match db now t d).0
  unfolding try_finalize_match can_take can_drive take_trip set_status
  finalize-IsBooked now t d =
      elim (Bool-cases (can_take (Map.get db.trips t) && can_drive (Map.get db.drivers d))) [
        | inl go ↦
            rw (go, try_finalize_match)
              (record {
                exclusive = λ a u e h k. ground (
                  arith,
                  go,
                  h,
                  k,
                  v.exclusive a u e,
                  v.engaged a e,
                  v.engaged u e,
                  get-update_row db.trips t a (take_trip d now),
                  get-update_row db.trips t u (take_trip d now),
                );
                engaged = λ a e h. ground (
                  arith,
                  go,
                  h,
                  v.engaged a e,
                  get-update_row db.trips t a (take_trip d now),
                  get-update_row db.drivers d e (set_status busy now),
                );
              })
        | inr stop ↦ rw (stop, try_finalize_match) v
      ]

  -- An update of a driver's row that keeps an engaged driver engaged.
  driver_row-IsBooked :
      (id : ℕ) (f : Driver → Driver)
      → ((t : ℕ) (r : Driver)
          → holds db t id ≡ true
          → is_online r.status ≡ false
          → is_online (f r).status ≡ false)
      → IsBooked (record db { drivers = update_row db.drivers id f })
  driver_row-IsBooked id f keep = record {
    exclusive = v.exclusive;
    engaged = λ t d h. elim (Option-cases (Map.get db.drivers d)) [
      | inl e ↦ ground (arith, v.engaged t d h, e)
      | inr (r, e) ↦
          ground (arith, v.engaged t d h, e, get-update_row db.drivers id d f, keep t r, h)
    ];
  }

  give_up-IsBooked :
      (t : ℕ) (reason : CancellationReason) → IsBooked (mark_trip_unmatched db t reason).0
  unfolding mark_trip_unmatched cancel_trip
  give_up-IsBooked t reason = elim (Option-cases (Map.get db.trips t)) [
    | inl e ↦ rw (e, mark_trip_unmatched) v
    | inr (trip, e) ↦ elim (Bool-cases (is_requested trip.status)) [
      | inl go ↦
          rw (e, mark_trip_unmatched, go)
            (record {
              exclusive = λ a u d h k. ground (
                arith,
                e,
                h,
                k,
                v.exclusive a u d,
                get-set db.trips t a (cancel_trip reason trip),
                get-set db.trips t u (cancel_trip reason trip),
              );
              engaged = λ a d h.
                  ground
                    (arith, e, h, v.engaged a d, get-set db.trips t a (cancel_trip reason trip));
            })
      | inr stop ↦ rw (e, mark_trip_unmatched, stop) v
    ]
  ]

  status-IsBooked :
      (now d : ℕ) (s : DriverStatus)
      → Allowed db (set_driver_status now d s)
      → IsBooked (update_driver_status db now d s)
  unfolding update_driver_status set_status
  status-IsBooked now d online free =
      driver_row-IsBooked d (set_status online now) (λ t r h o. ground (arith, free t, h))
  status-IsBooked now d offline free =
      driver_row-IsBooked d (set_status offline now) (λ t r h o. refl)
  status-IsBooked now d busy free = driver_row-IsBooked d (set_status busy now) (λ t r h o. refl)

  move-IsBooked : (now d : ℕ) (p : LatLng) → IsBooked (update_driver_location db now d p)
  unfolding update_driver_location set_location
  move-IsBooked now d p = driver_row-IsBooked d (set_location p now) (λ t r h o. o)

  evict-IsBooked : (now d : ℕ) → IsBooked (force_offline db now d)
  unfolding force_offline
  evict-IsBooked now d = elim (Option-cases (Map.get db.drivers d)) [
    | inl e ↦ rw (e, force_offline) v
    | inr (r, e) ↦ rw (e, force_offline) (by_status r.status)
  ]
    where
      by_status :
          (s : DriverStatus)
          → IsBooked (elim s [ offline ↦ db | _ ↦ update_driver_status db now d offline ])
      by_status offline = v
      by_status online = status-IsBooked now d offline tt
      by_status busy = status-IsBooked now d offline tt

batch-IsBooked :
    (now : ℕ) (db : Db) (entries : List (ℕ × LatLng))
    → IsBooked db
    → IsBooked (batch_update_locations db now entries)
unfolding batch_update_locations
batch-IsBooked now db entries v =
    for_each_inv IsBooked entries (λ db' e. update_driver_location db' now e.0 e.1)
      (λ s e w. move-IsBooked s w now e.0 e.1) db v

-- Every statement keeps each driver on one active trip at most and each driver of an active trip from
-- being 'online', if new ids are unused and no driver is put online who is on an active trip.
pub execute-IsBooked :
    (db : Db) (s : Statement) → IsBooked db → Allowed db s → IsBooked (execute db s)
unfolding execute
execute-IsBooked db (create_trip id now input) v a = insert_trip-IsBooked db v id now input a
execute-IsBooked db (create_driver id now input) v a = insert_driver-IsBooked db v id now input a
execute-IsBooked db (finalize now t d) v a = finalize-IsBooked db v now t d
execute-IsBooked db (give_up t reason) v a = give_up-IsBooked db v t reason
execute-IsBooked db (set_driver_status now d s) v a = status-IsBooked db v now d s a
execute-IsBooked db (move_driver now d p) v a = move-IsBooked db v now d p
execute-IsBooked db (move_batch now entries) v a = batch-IsBooked now db entries v
execute-IsBooked db (evict now d) v a = evict-IsBooked db v now d

pub execute_all : Db → List Statement → Db
execute_all db [] = db
execute_all db (s ∷ ss) = execute_all (execute db s) ss

abbrev pub AllAllowed : Db → List Statement → Type 0
AllAllowed db [] = Unit {0}
AllAllowed db (s ∷ ss) = Allowed db s × AllAllowed (execute db s) ss

execute_all-IsBooked :
    (db : Db) (ss : List Statement) → IsBooked db → AllAllowed db ss → IsBooked (execute_all db ss)
unfolding execute_all
execute_all-IsBooked db [] v a = v
execute_all-IsBooked db (s ∷ ss) v a =
    execute_all-IsBooked (execute db s) ss (execute-IsBooked db s v a.0) a.1

empty_db-IsBooked : IsBooked empty_db
unfolding empty_db
empty_db-IsBooked = record {
  exclusive = λ t u d h k. ground (arith, Map.get-empty {V = Trip} t, h);
  engaged = λ t d h. ground (arith, Map.get-empty {V = Trip} t, h);
}

-- From empty tables, in any order of statements in which new ids are unused and no driver is put online
-- who is on an active trip, no driver is ever on two active trips, and a driver on an active trip has
-- a row whose status is not 'online'.
pub no_double_booking :
    (ss : List Statement) → AllAllowed empty_db ss → IsBooked (execute_all empty_db ss)
no_double_booking ss a = execute_all-IsBooked empty_db ss empty_db-IsBooked a
