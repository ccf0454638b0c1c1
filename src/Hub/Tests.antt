-- ===== src/Hub/Tests.antt =====
-- The hub of core/stream_hub.go with a few streams, and the theorems at concrete inputs.
use liveforge.Base.{ℕ, ◌≤◌, ◌≡◌, refl, false, Bool, some, none, [], ◌∷◌, arith, ◌==◌, length, take}
use liveforge.Base.Assoc.{string_key, lookup, insert, delete}
use liveforge.Hub.{
  StreamHub, limit_reached, new_stream_hub, drop_stream, add_stream, admit, get_or_create,
  remove_if_current, first_stable, stable_streams,
}
use liveforge.Hub.Stable.{lasting, stable_streams_lem}
use liveforge.Hub.Order.{IsValid}
use liveforge.Hub.Life.{
  Reach, here, next, creates, limits, Reach-IsValid, replaced_expires, lost_stream,
}

abbrev none_ends : ℕ → Bool
none_ends s = false

abbrev first_ends : ℕ → Bool
first_ends s = s == 0

abbrev one : StreamHub
one = (get_or_create none_ends "a" (new_stream_hub 2)).1

abbrev two : StreamHub
two = (get_or_create none_ends "b" one).1

abbrev lowered : StreamHub
lowered = record two { max_streams = 1 }

run : Reach (new_stream_hub 2) lowered
run =
    next (next (next here (creates none_ends "a" (new_stream_hub 2))) (creates none_ends "b" one))
      (limits 1 two)

-- the first stream is destroying and is passed over
stable : stable_streams first_ends 5 two ≡ 1 ∷ []
unfolding stable_streams first_stable get_or_create admit add_stream new_stream_hub lookup insert
stable = refl

has_a : lookup "a" lowered.streams ≡ some 0
unfolding get_or_create admit add_stream new_stream_hub lookup insert
has_a = refl

room_for_none : lowered.max_streams ≤ length (delete "a" lowered.streams)
unfolding get_or_create admit add_stream new_stream_hub lookup insert delete
room_for_none = omega arith

Reach-IsValid_example : IsValid lowered
Reach-IsValid_example = Reach-IsValid 2 run

replaced_expires_example :
    remove_if_current "a" 0 (get_or_create first_ends "a" lowered).1
    ≡ ((get_or_create first_ends "a" lowered).1, [])
replaced_expires_example =
    replaced_expires first_ends "a" 0 lowered (Reach-IsValid 2 run) has_a refl

lost_stream_example :
    (get_or_create first_ends "a" lowered ≡ (limit_reached, drop_stream "a" 0 lowered, []))
    × (lookup "a" (drop_stream "a" 0 lowered).streams ≡ none)
    × (remove_if_current "a" 0 (drop_stream "a" 0 lowered) ≡ (drop_stream "a" 0 lowered, []))
lost_stream_example =
    lost_stream first_ends "a" 0 lowered (Reach-IsValid 2 run) has_a refl (omega arith)
      room_for_none

stable_streams_lem_example :
    stable_streams first_ends 5 lowered ≡ take 5 (lasting first_ends lowered.streams)
stable_streams_lem_example = stable_streams_lem 2 run first_ends 5
