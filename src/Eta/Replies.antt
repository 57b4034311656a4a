-- ===== src/Eta/Replies.antt =====
-- What `fetch` and `JSON.parse` answer, as far as core/src/services/ml-eta-client.ts and osrm-client.ts read it.
-- A JSON number is a fixed-point one, or too large for JavaScript, which reads it as infinite.
use ride_location_tracking_e.Common.{ℕ, Bool, ◌&&◌, Option, none, some, leb, ltb, if◌then◌else◌}
use ride_location_tracking_e.Common.Int.{ℤ, pos}
use Prim.Native.String.{String}
use text.Mathlib.Text.{◌==◌}

pub data Number : Type 0 where
  finite : ℤ → Number
  infinite : Number

mutual
  pub data Json : Type 0 where
    null : Json
    boolean : Bool → Json
    number : Number → Json
    string : String → Json
    array : Items → Json
    object : Fields → Json

  pub data Items : Type 0 where
    nil : Items
    cons : Json → Items → Items

  pub data Fields : Type 0 where
    end : Fields
    field : String → Json → Fields → Fields

pub data Reply : Type 0 where
  -- The timer aborted the request.
  aborted : Reply
  -- `fetch` threw anything else.
  refused : Reply
  -- The status, and the body if it is JSON.
  responded : ℕ → Option Json → Reply

-- `response.ok`
abbrev pub is_ok : ℕ → Bool
is_ok status = leb 200 status && ltb status 300

-- `value[key]`, where the names are distinct.
unfoldable pub get_field : String → Fields → Option Json
get_field key end = none
get_field key (field name value rest) = if name == key then some value else get_field key rest

-- The value as a finite number that is not negative.
abbrev pub measure : Option Json → Option ℕ
measure (some (number (finite (pos n)))) = some n
measure _ = none

abbrev pub text_of : Option Json → Option String
text_of (some (string s)) = some s
text_of _ = none
