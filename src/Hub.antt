-- ===== src/Hub.antt =====
-- core/stream_hub.go: the streams of the server by their keys, in the order of their creation. A
-- stream is the number of its object; whether one is destroying is an argument (`is_ending`), since
-- streams end by themselves. An element of the linked list is known by the object that it holds. What
-- the hub does to streams and to the event bus outside its lock is a list of effects, in their order.
pub mod Order
pub mod Life
pub mod Stable
mod Tests
use liveforge.Base.{
  ℕ, zero, suc, ◌+◌, String, Bool, true, false, not, Option, none, some, List, [], ◌∷◌, ◌++◌, ◌&&◌,
  ltb, leb, ◌==◌, if◌then◌else◌, length,
}
use liveforge.Base.Assoc.{string_key, lookup, insert, delete}

-- `StreamHub`
pub record StreamHub : Type 0 where
  pub streams : List (String × ℕ)
  pub order : List (String × ℕ)
  pub order_by_key : List (String × ℕ)
  pub max_streams : ℕ
  -- the number of the next stream object
  pub next_object : ℕ

pub data Effect : Type 0 where
  closes closes_ring : ℕ → Effect
  stream_destroy : String → ℕ → Effect
  stream_create : String → Effect

-- What `GetOrCreateWithCreated` returns.
pub data HubResult : Type 0 where
  found created : ℕ → HubResult
  limit_reached : HubResult

-- `NewStreamHub`
unfoldable pub new_stream_hub : ℕ → StreamHub
new_stream_hub max_streams = record {
  streams = [];
  order = [];
  order_by_key = [];
  max_streams = max_streams;
  next_object = 0;
}

-- `streamOrder.Remove(element)`
unfoldable pub remove_element : ℕ → List (String × ℕ) → List (String × ℕ)
remove_element o [] = []
remove_element o ((k, p) ∷ order) =
    let rest = remove_element o order in if p == o then order else (k, p) ∷ rest

-- `removeOrderedStreamLocked`, with the element that it finds.
abbrev pub remove_found : String → ℕ → StreamHub → Option ℕ → StreamHub
remove_found key stream h none = h
remove_found key stream h (some o) =
    if o == stream
    then record h { order = remove_element o h.order; order_by_key = delete key h.order_by_key }
    else h

unfoldable pub remove_ordered_stream : String → ℕ → StreamHub → StreamHub
remove_ordered_stream key stream h = remove_found key stream h (lookup key h.order_by_key)

-- A stream leaves the map and the order.
abbrev pub drop_stream : String → ℕ → StreamHub → StreamHub
drop_stream key stream h =
    remove_ordered_stream key stream (record h { streams = delete key h.streams })

-- `addOrderedStreamLocked`, and the entry of the map before it.
unfoldable pub add_stream : String → StreamHub → StreamHub
add_stream key h = record h {
  streams = insert key h.next_object h.streams;
  order = h.order ++ (key, h.next_object) ∷ [];
  order_by_key = insert key h.next_object h.order_by_key;
  next_object = h.next_object + 1;
}

abbrev pub replaced : String → Option ℕ → List Effect
replaced key none = []
replaced key (some s) = closes s ∷ stream_destroy key s ∷ []

-- The part of `GetOrCreateWithCreated` behind the lookup.
unfoldable pub admit : String → Option ℕ → StreamHub → HubResult × StreamHub × List Effect
admit key replacing h =
    if ltb 0 h.max_streams && leb h.max_streams (length h.streams)
    then (limit_reached, h, [])
    else (created h.next_object, add_stream key h, replaced key replacing ++ stream_create key ∷ [])

-- `GetOrCreateWithCreated`, with the stream that has the key: one that is destroying is replaced.
abbrev pub get_current :
    (ℕ → Bool) → String → StreamHub → Option ℕ → HubResult × StreamHub × List Effect
get_current is_ending key h none = admit key none h
get_current is_ending key h (some s) =
    if not (is_ending s) then (found s, h, []) else admit key (some s) (drop_stream key s h)

unfoldable pub get_or_create : (ℕ → Bool) → String → StreamHub → HubResult × StreamHub × List Effect
get_or_create is_ending key h = get_current is_ending key h (lookup key h.streams)

-- `Remove`, with the stream that has the key.
abbrev pub remove_current : String → StreamHub → Option ℕ → StreamHub × List Effect
remove_current key h none = (h, [])
remove_current key h (some s) = (drop_stream key s h, closes s ∷ stream_destroy key s ∷ [])

unfoldable pub remove : String → StreamHub → StreamHub × List Effect
remove key h = remove_current key h (lookup key h.streams)

-- `removeIfCurrent`, which a stream calls when it has ended, with the stream that has the key.
abbrev pub remove_same : String → ℕ → StreamHub → Option ℕ → StreamHub × List Effect
remove_same key stream h none = (h, [])
remove_same key stream h (some s) =
    if s == stream
    then (drop_stream key stream h, closes_ring stream ∷ stream_destroy key stream ∷ [])
    else (h, [])

unfoldable pub remove_if_current : String → ℕ → StreamHub → StreamHub × List Effect
remove_if_current key stream h = remove_same key stream h (lookup key h.streams)

-- `StableStreams`
unfoldable pub first_stable : (ℕ → Bool) → ℕ → List (String × ℕ) → List ℕ
first_stable is_ending zero order = []
first_stable is_ending (suc limit) [] = []
first_stable is_ending (suc limit) ((k, s) ∷ order) =
    let same = first_stable is_ending (suc limit) order in
    let less = first_stable is_ending limit order in if is_ending s then same else s ∷ less

unfoldable pub stable_streams : (ℕ → Bool) → ℕ → StreamHub → List ℕ
stable_streams is_ending limit h = first_stable is_ending limit h.order
