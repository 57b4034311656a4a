-- ===== src/Subscriptions.antt =====
-- core/src/ws/subscriptions.ts, with `sendJson` of core/src/ws/util.ts.
-- A `SubscriberInfo` is a shared mutable object: the registry keeps a heap `infos` from the object's
-- identity to its fields, and the two indexes and `by_socket` hold identities. What goes to a socket is
-- appended to `outbox`. Which sockets are open and how many bytes a message takes are parameters.
pub mod Index
pub mod Invariant
pub mod Matches
pub mod Notices
pub mod Calls
pub mod Effects
pub mod Endings
pub mod Follows
pub mod Sets
pub mod Outbox
mod Tests
use ride_location_tracking_e.Common.{
  ℕ, ◌+◌, Bool, true, false, not, Option, none, some, List, [], ◌∷◌, ◌++◌, ◌==◌, if◌then◌else◌,
  or_default, opt_is, is_some, for_each, length,
}
use ride_location_tracking_e.Common.Map
use ride_location_tracking_e.Common.Map.{Map}
use ride_location_tracking_e.Common.KeySet.{KeySet}
use ride_location_tracking_e.Domain.{LatLng}
use ride_location_tracking_e.Bandwidth.{BandwidthTotals, no_totals, record_message}
use ride_location_tracking_e.Delta.{
  LastKnownState, EncodeMeta, FullLocationPayload, LocationBroadcastPayload, location,
  encode_location_message, sent_state,
}
use Index.{Index as SubscriberIndex, add_to_index, remove_if_keyed, add_if_keyed}

pub record SubscriberInfo : Type 0 where
  pub socket : ℕ
  pub driver_id : Option ℕ
  pub trip_id : Option ℕ
  pub last_sent : Option LastKnownState

pub data EndReason : Type 0 where
  trip_completed trip_cancelled : EndReason

pub data OutMessage : Type 0 where
  location_update : LocationBroadcastPayload → OutMessage
  trip_matched : ℕ → ℕ → OutMessage
  unsubscribed : ℕ → EndReason → OutMessage

pub data Emit : Type 0 where
  send : ℕ → OutMessage → Emit
  close : ℕ → ℕ → Emit

pub record Registry : Type 0 where
  pub by_driver : SubscriberIndex
  pub by_trip : SubscriberIndex
  pub by_socket : Map ℕ
  pub infos : Map SubscriberInfo
  pub next_info : ℕ
  pub outbox : List Emit
  pub totals : BandwidthTotals

pub init : Registry
init = record {
  by_driver = [];
  by_trip = [];
  by_socket = [];
  infos = [];
  next_info = 0;
  outbox = [];
  totals = no_totals;
}

pub detach : Registry → ℕ → Registry
detach r id = elim (Map.get r.infos id) [
  | none ↦ r
  | some info ↦ record r {
    by_driver = remove_if_keyed r.by_driver info.driver_id id;
    by_trip = remove_if_keyed r.by_trip info.trip_id id;
    by_socket = Map.delete r.by_socket info.socket;
  }
]

pub replace_existing : Registry → ℕ → Registry
replace_existing r socket = elim (Map.get r.by_socket socket) [
  | none ↦ r
  | some existing ↦ detach r existing
]

-- The rest of both `subscribe` functions: a new object, put under its keys.
pub attach : Registry → ℕ → Option ℕ → Option ℕ → Registry
attach r socket driver_id trip_id = record r {
  by_trip = add_if_keyed r.by_trip trip_id r.next_info;
  by_driver = add_if_keyed r.by_driver driver_id r.next_info;
  by_socket = Map.set r.by_socket socket r.next_info;
  infos =
      Map.set r.infos r.next_info
        (record { socket = socket; driver_id = driver_id; trip_id = trip_id; last_sent = none });
  next_info = r.next_info + 1;
}

pub subscribe_to_driver : Registry → ℕ → ℕ → Registry
subscribe_to_driver r socket driver_id =
    attach (replace_existing r socket) socket (some driver_id) none

pub subscribe_to_trip : Registry → ℕ → ℕ → Option ℕ → Registry
subscribe_to_trip r socket trip_id driver_id =
    attach (replace_existing r socket) socket driver_id (some trip_id)

pub unsubscribe : Registry → ℕ → Registry × Bool
unsubscribe r socket = elim (Map.get r.by_socket socket) [
  | none ↦ (r, false)
  | some existing ↦ (detach r existing, true)
]

pub handle_subscriber_disconnect : Registry → ℕ → Registry
handle_subscriber_disconnect r socket = (unsubscribe r socket).0

pub record RawDriverLocationUpdate : Type 0 where
  pub position : LatLng
  pub meta : EncodeMeta

module _ (is_open : ℕ → Bool) where
  pub send_json : Registry → ℕ → OutMessage → Registry
  send_json r socket payload =
      if is_open socket then record r { outbox = r.outbox ++ send socket payload ∷ [] } else r

  -- The body of the loop of `notifyTripMatched`.
  pub rematch : ℕ → ℕ → Registry → ℕ → Registry
  rematch trip_id driver_id r id = elim (Map.get r.infos id) [
    | none ↦ r
    | some info ↦
        send_json
          (if opt_is info.driver_id driver_id then r else record r {
            by_driver = add_to_index (remove_if_keyed r.by_driver info.driver_id id) driver_id id;
            infos = Map.set r.infos id (record info { driver_id = some driver_id });
          })
          info.socket (trip_matched trip_id driver_id)
  ]

  pub notify_trip_matched : Registry → ℕ → ℕ → Registry
  notify_trip_matched r trip_id driver_id = elim (Map.get r.by_trip trip_id) [
    | none ↦ r
    | some subscribers ↦ for_each subscribers (rematch trip_id driver_id) r
  ]

  -- The body of the loop of `notifyTripStatusChanged`.
  pub end_subscription : ℕ → EndReason → Registry → ℕ → Registry
  end_subscription trip_id reason r id = elim (Map.get r.infos id) [
    | none ↦ r
    | some info ↦ detach (send_json r info.socket (unsubscribed trip_id reason)) id
  ]

  pub notify_trip_status_changed : Registry → ℕ → EndReason → Registry
  notify_trip_status_changed r trip_id reason = elim (Map.get r.by_trip trip_id) [
    | none ↦ r
    | some subscribers ↦ for_each subscribers (end_subscription trip_id reason) r
  ]

  module _ (byte_length : OutMessage → ℕ) (step : ℕ) where
    pub full_message : RawDriverLocationUpdate → OutMessage
    full_message u = location_update (
        location (record {
          driver_id = u.meta.driver_id;
          lat = u.position.lat;
          lng = u.position.lng;
          timestamp = u.meta.timestamp;
          status = u.meta.status;
        }))

    -- The body of the loop of `broadcastDriverLocation`.
    pub broadcast_to : RawDriverLocationUpdate → Registry → ℕ → Registry
    broadcast_to u r id = elim (Map.get r.infos id) [
      | none ↦ r
      | some info ↦
          let message =
            location_update (encode_location_message step info.last_sent u.position u.meta) in
          let sent = send_json r info.socket message in
          record sent {
            totals =
                record_message (byte_length (full_message u)) (byte_length message) sent.totals;
            infos =
                Map.set sent.infos id
                  (record info { last_sent = some (sent_state u.position u.meta) });
          }
    ]

    pub broadcast_driver_location : Registry → ℕ → RawDriverLocationUpdate → Registry
    broadcast_driver_location r driver_id u = elim (Map.get r.by_driver driver_id) [
      | none ↦ r
      | some subscribers ↦ for_each subscribers (broadcast_to u) r
    ]

-- The body of the loop of `closeAllSubscriberConnections`.
pub close_subscriber : Registry → ℕ → Registry
close_subscriber r id = elim (Map.get r.infos id) [
  | none ↦ r
  | some info ↦
      let r' = detach r id in record r' { outbox = r'.outbox ++ close info.socket 1001 ∷ [] }
]

pub close_all_subscriber_connections : Registry → Registry
close_all_subscriber_connections r = for_each (Map.values r.by_socket) close_subscriber r

pub get_driver_subscriber_count : Registry → ℕ → ℕ
get_driver_subscriber_count r driver_id = length (or_default (Map.get r.by_driver driver_id) [])

pub get_trip_subscriber_count : Registry → ℕ → ℕ
get_trip_subscriber_count r trip_id = length (or_default (Map.get r.by_trip trip_id) [])

pub get_total_subscriber_count : Registry → ℕ
get_total_subscriber_count r = Map.size r.by_socket

pub is_socket_subscribed : Registry → ℕ → Bool
is_socket_subscribed r socket = Map.has r.by_socket socket
