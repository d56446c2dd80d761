-- ===== src/Realtime/Tests.antt =====
-- Concrete runs of the hub.
use runspace.Prelude.{
  ℕ, ◌≡◌, refl, arith, true, false, none, some, [], ◌∷◌, get_elem?, some_of, if◌then◌else◌, subst,
  sym, inl, ap, is_empty,
}
use runspace.Dict
use runspace.Dict.{Dict}
use runspace.Text.{trim_space}
use runspace.Errors.{ok}
use runspace.Contracts.Event.{EventEnvelope, validate}
use runspace.Samples.{any_json, event}
use runspace.Realtime.{
  Feed, MemoryHub, new_memory_hub, replay_after, slice_at, subscribe_since, close_subscription,
  publish, open_feed,
}
use runspace.Realtime.Replay.{IsHistory, Unrepeated}
use runspace.Realtime.Channels.{on_channel, IsWired}
use runspace.Realtime.Channels.Delivery.{offer_to, publish-delivers}
use runspace.Realtime.Channels.Lifetime.{subscribe_since-IsWired}
use runspace.Realtime.Channels.Closing.{close_subscription_ends}
use runspace.Realtime.Channels.Catchup.{publish_all, subscribe_since-catches_up}

abbrev a : EventEnvelope
a = event "a" "w"

abbrev b : EventEnvelope
b = event "b" "w"

abbrev c : EventEnvelope
c = event "c" "w"

new_memory_hub-IsHistory : IsHistory new_memory_hub.history
unfolding Dict.get Dict.empty
new_memory_hub-IsHistory k = (tt, tt)

new_memory_hub-IsWired : IsWired new_memory_hub
unfolding Dict.get Dict.empty
new_memory_hub-IsWired = record { live = λ k. tt; apart = λ k. tt }

abbrev joined_hub : MemoryHub
joined_hub = (subscribe_since none "w" "" new_memory_hub).1

joined_hub-IsWired : IsWired joined_hub
joined_hub-IsWired = (subscribe_since-IsWired "w" "" new_memory_hub new_memory_hub-IsWired).3

publish-delivers_example :
    let hub' = (publish any_json none a joined_hub).1 in
    ((publish any_json none a joined_hub).0 ≡ ok tt)
    × IsWired hub'
    × ((c : ℕ)
        → get_elem? hub'.feeds c ≡ (
            if some_of (on_channel c) (slice_at joined_hub.subscribers "w")
            then offer_to a (get_elem? joined_hub.feeds c)
            else get_elem? joined_hub.feeds c))
unfolding validate trim_space
publish-delivers_example = publish-delivers any_json a joined_hub joined_hub-IsWired refl

-- A hub that has the events a and b of the workspace.
abbrev told_hub : MemoryHub
told_hub = record new_memory_hub { history = Dict.put Dict.empty "w" (a ∷ b ∷ []) }

told_hub-IsWired : IsWired told_hub
unfolding Dict.get Dict.empty
told_hub-IsWired = record { live = λ k. tt; apart = λ k. tt }

told : slice_at told_hub.history "w" ≡ a ∷ b ∷ []
unfolding Dict.get Dict.put Dict.empty
told = refl

told-Unrepeated : Unrepeated (a ∷ b ∷ [])
told-Unrepeated = (refl, (refl, tt))

-- A client that saw a, and the event c after it came back.
subscribe_since-catches_up_example :
    get_elem? (publish_all any_json (c ∷ []) (subscribe_since none "w" "a" told_hub).1).feeds 0
    ≡ some (record (open_feed "w" (b ∷ [])) { buffer = b ∷ c ∷ [] })
unfolding validate trim_space
subscribe_since-catches_up_example =
    subscribe_since-catches_up any_json "w" "a" (b ∷ []) (c ∷ []) told_hub told_hub-IsWired
      (subst Unrepeated (sym told) told-Unrepeated)
      (inl ([], a, told, refl, λ h. absurd (grind (arith, ap is_empty h)))) ((refl, refl), tt)
      (omega arith)

abbrev first_feed : Feed
first_feed = open_feed "w" (replay_after (slice_at new_memory_hub.history "w") "")

close_subscription_ends_example :
    let hub' = (close_subscription 0 joined_hub).1 in
    (get_elem? hub'.feeds 0 ≡ some (record first_feed { once_done = true; closed = true }))
    × (some_of (on_channel 0) (slice_at hub'.subscribers "w") ≡ false)
    × (close_subscription 0 hub' ≡ (ok tt, hub'))
close_subscription_ends_example =
    close_subscription_ends 0 first_feed joined_hub
      (subscribe_since-IsWired "w" "" new_memory_hub new_memory_hub-IsWired).1 joined_hub-IsWired
      refl (subscribe_since-IsWired "w" "" new_memory_hub new_memory_hub-IsWired).2
