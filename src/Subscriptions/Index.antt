-- ===== src/Subscriptions/Index.antt =====
-- The two indexes of core/src/ws/subscriptions.ts: from an id to the set of subscribers under it.
use ride_location_tracking_e.Common.{
  ℕ, ◌≡◌, refl, Bool, false, not, ◌&&◌, ◌||◌, Option, none, some, arith, ◌==◌, if◌then◌else◌,
  or_default, opt_is, Option-cases, inl, inr, [], ◌∙◌,
}
use ride_location_tracking_e.Common.Map
use ride_location_tracking_e.Common.Map.{Map, get-set, get-delete}
use ride_location_tracking_e.Common.KeySet
use ride_location_tracking_e.Common.KeySet.{KeySet, has-add, has-delete, has-empty, has-nil}

abbrev pub Index : Type 0
Index = Map KeySet

unfoldable pub add_to_index : Index → ℕ → ℕ → Index
add_to_index index key info =
    Map.set index key (KeySet.add (or_default (Map.get index key) []) info)

-- The set under a key after a deletion from it; an emptied set leaves the map.
unfoldable pub emptied : Index → ℕ → KeySet → Index
emptied index key set = if KeySet.is_empty set then Map.delete index key else Map.set index key set

unfoldable pub remove_from_index : Index → ℕ → ℕ → Index
remove_from_index index key info = elim (Map.get index key) [
  | none ↦ index
  | some set ↦ emptied index key (KeySet.delete set info)
]

-- `if (key) removeFromIndex(index, key, info)`
unfoldable pub remove_if_keyed : Index → Option ℕ → ℕ → Index
remove_if_keyed index none info = index
remove_if_keyed index (some key) info = remove_from_index index key info

-- `if (key) addToIndex(index, key, info)`
unfoldable pub add_if_keyed : Index → Option ℕ → ℕ → Index
add_if_keyed index none info = index
add_if_keyed index (some key) info = add_to_index index key info

-- Is this subscriber in the set under the key?
unfoldable pub member : Index → ℕ → ℕ → Bool
member index key info = KeySet.has (or_default (Map.get index key) []) info

pub member-add :
    (index : Index) (key info k i : ℕ)
    → member (add_to_index index key info) k i ≡ ((key == k && info == i) || member index k i)
unfolding member add_to_index
member-add index key info k i = ground (
  arith,
  get-set index key k (KeySet.add (or_default (Map.get index key) []) info),
  has-add (or_default (Map.get index key) []) info i,
)

member-emptied :
    (index : Index) (key : ℕ) (set : KeySet) (k i : ℕ)
    → member (emptied index key set) k i ≡ (if key == k then KeySet.has set i else member index k i)
unfolding member emptied
member-emptied index key set k i =
    ground (arith, get-delete index key k, get-set index key k set, has-empty set i, has-nil i)

-- Nothing is a member under an absent key, and the members under a present one are its set's.
pub member_at :
    (index : Index) (key i : ℕ) (o : Option KeySet)
    → Map.get index key ≡ o
    → member index key i ≡ KeySet.has (or_default o []) i
unfolding member
member_at index key i o e = ground arith

pub member-remove :
    (index : Index) (key info k i : ℕ)
    → member (remove_from_index index key info) k i
      ≡ (not (key == k && info == i) && member index k i)
unfolding remove_from_index
member-remove index key info k i = elim (Option-cases (Map.get index key)) [
  | inl e ↦ rw (e, remove_from_index) (ground (arith, member_at index key i none e, has-nil i))
  | inr (set, e) ↦
      rw (e, remove_from_index, member-emptied index key (KeySet.delete set info) k i)
        (ground (arith, has-delete set info i, member_at index key i (some set) e))
]

pub member-remove_if :
    (index : Index) (o : Option ℕ) (info k i : ℕ)
    → member (remove_if_keyed index o info) k i
      ≡ (not (opt_is o k && info == i) && member index k i)
unfolding remove_if_keyed
member-remove_if index none info k i = refl
member-remove_if index (some key) info k i = member-remove index key info k i

pub member-add_if :
    (index : Index) (o : Option ℕ) (info k i : ℕ)
    → member (add_if_keyed index o info) k i ≡ ((opt_is o k && info == i) || member index k i)
unfolding add_if_keyed
member-add_if index none info k i = refl
member-add_if index (some key) info k i = member-add index key info k i

pub member-nil : (k i : ℕ) → member [] k i ≡ false
unfolding member
member-nil k i = member_at [] k i none (Map.get-empty k) ∙ has-nil i
