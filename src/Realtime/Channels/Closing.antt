-- ===== src/Realtime/Channels/Closing.antt =====
-- internal/realtime/hub.go: the function that ends a subscription.
use runspace.Prelude.{
  ℕ, ◌<◌, ◌≡◌, refl, subst, ◌≢◌, ◌⊎◌, inl, inr, String, true, false, none, some, List, arith, ◌==◌,
  eq_iff, eq_refl, length, get_elem?, set, get_elem?-set, length-set, get_elem?-lt, some_of, All,
  Bool-cases, Option-cases, String-cases,
}
use runspace.Errors.{ok}
use runspace.Dict
use runspace.Dict.{get-put}
use runspace.Realtime.{Feed, Subscriber, MemoryHub, slice_at, close_subscription, drop_subscriber}
use runspace.Realtime.Channels.{on_channel, IsLive, IsWired, IsLive-elsewhere}
use runspace.Realtime.Channels.Dropping.{
  dropped_none, dropped_some, dropped_gone, dropped-Apart, dropped-IsLive, live_feed, not_on_other,
}

close_again_of :
    (c : ℕ) (f : Feed) (hub : MemoryHub)
    → get_elem? hub.feeds c ≡ some f
    → f.once_done ≡ true
    → close_subscription c hub ≡ (ok tt, hub)
unfolding close_subscription
close_again_of c f hub at h = ground (arith, at)

module _ (c : ℕ) (f : Feed) (hub : MemoryHub) (at : get_elem? hub.feeds c ≡ some f) where
  abbrev entered : Feed
  entered = record f { once_done = true }

  abbrev marked : List Feed
  marked = set hub.feeds c entered

  abbrev ended : List Feed
  ended = set marked c (record entered { closed = true })

  close_unlisted :
      f.once_done ≡ false
      → drop_subscriber c (slice_at hub.subscribers f.workspace_id) ≡ none
      → close_subscription c hub ≡ (ok tt, record hub { feeds = marked })
  unfolding close_subscription
  close_unlisted h d = ground (arith, at)

  close_listed :
      (rest : List Subscriber)
      → f.once_done ≡ false
      → f.closed ≡ false
      → drop_subscriber c (slice_at hub.subscribers f.workspace_id) ≡ some rest
      → close_subscription c hub ≡ (
        ok tt,
        record hub { subscribers = Dict.put hub.subscribers f.workspace_id rest; feeds = ended },
      )
  unfolding close_subscription
  close_listed rest h o d = ground (arith, at)

  in_range : c < length hub.feeds
  in_range = get_elem?-lt hub.feeds c f at

  lives_marked :
      (k : String) (items : List Subscriber)
      → some_of (on_channel c) items ≡ false
      → All (IsLive hub.feeds k) items
      → All (IsLive marked k) items
  lives_marked k items out l = IsLive-elsewhere hub.feeds k c entered items in_range out l

  lives_ended :
      (k : String) (items : List Subscriber)
      → some_of (on_channel c) items ≡ false
      → All (IsLive hub.feeds k) items
      → All (IsLive ended k) items
  lives_ended k items out l =
      IsLive-elsewhere marked k c _ items (omega (arith, in_range, length-set hub.feeds c entered))
        out (lives_marked k items out l)

  unlisted-IsWired :
      drop_subscriber c (slice_at hub.subscribers f.workspace_id) ≡ none
      → IsWired hub
      → IsWired (record hub { feeds = marked })
  unlisted-IsWired d w = record {
    live = λ k.
        lives_marked k (slice_at hub.subscribers k) (out k (String-cases f.workspace_id k))
          (w.live k);
    apart = w.apart;
  }
    where
      out :
          (k : String)
          → (f.workspace_id ≡ k) ⊎ (f.workspace_id ≢ k)
          → some_of (on_channel c) (slice_at hub.subscribers k) ≡ false
      out k (inl e) =
          subst (λ j. some_of (on_channel c) (slice_at hub.subscribers j) ≡ false) e
            (dropped_none c (slice_at hub.subscribers f.workspace_id) d)
      out k (inr n) = not_on_other hub.feeds k c f (slice_at hub.subscribers k) at n (w.live k)

  module _ (rest : List Subscriber)
      (d : drop_subscriber c (slice_at hub.subscribers f.workspace_id) ≡ some rest)
      (w : IsWired hub) where
    listed : List Subscriber
    listed = slice_at hub.subscribers f.workspace_id

    rest_out : some_of (on_channel c) rest ≡ false
    rest_out =
        dropped_gone c (slice_at hub.subscribers f.workspace_id) rest d (w.apart f.workspace_id)

    was_open : f.closed ≡ false
    was_open =
        (live_feed hub.feeds f.workspace_id c f (slice_at hub.subscribers f.workspace_id) at
          (dropped_some c (slice_at hub.subscribers f.workspace_id) rest d)
          (w.live f.workspace_id)).0

    listed-IsWired :
        IsWired
          (record hub { subscribers = Dict.put hub.subscribers f.workspace_id rest; feeds = ended })
    listed-IsWired = record {
      live = λ k. elim (String-cases f.workspace_id k) [
        | inl e ↦
            rw (get-put, (eq_iff f.workspace_id k).1 e)
              (lives_ended k rest rest_out (
                subst (λ j. All (IsLive hub.feeds j) rest) e
                  (dropped-IsLive hub.feeds f.workspace_id c
                    (slice_at hub.subscribers f.workspace_id) rest d (w.live f.workspace_id))))
        | inr n ↦
            rw (get-put, not_equal k n)
              (lives_ended k (slice_at hub.subscribers k)
                (not_on_other hub.feeds k c f (slice_at hub.subscribers k) at n (w.live k))
                (w.live k))
      ];
      apart = λ k. elim (String-cases f.workspace_id k) [
        | inl e ↦
            rw (get-put, (eq_iff f.workspace_id k).1 e)
              (dropped-Apart c (slice_at hub.subscribers f.workspace_id) rest d
                (w.apart f.workspace_id))
        | inr n ↦ rw (get-put, not_equal k n) (w.apart k)
      ];
    }
      where
        not_equal : (k : String) → f.workspace_id ≢ k → (f.workspace_id == k) ≡ false
        not_equal k n = ground (arith, eq_iff f.workspace_id k)

    ended-closed : get_elem? ended c ≡ some (record f { once_done = true; closed = true })
    ended-closed = ground (
      arith,
      get_elem?-set marked c c (record entered { closed = true }),
      length-set hub.feeds c entered,
      in_range,
    )

  -- Ending a subscription never panics, however often it is done, and keeps the hub wired.
  close_subscription-IsWired :
      IsWired hub → ((close_subscription c hub).0 ≡ ok tt) × IsWired (close_subscription c hub).1
  close_subscription-IsWired w = elim (Bool-cases f.once_done) [
    | inl done ↦ rw (close_again_of c f hub at done) (refl, w)
    | inr fresh ↦
        elim (Option-cases (drop_subscriber c (slice_at hub.subscribers f.workspace_id))) [
          | inl absent ↦ rw (close_unlisted fresh absent) (refl, unlisted-IsWired absent w)
          | inr (rest, d) ↦
              rw (close_listed rest fresh (was_open rest d w) d) (refl, listed-IsWired rest d w)
        ]
  ]

  -- The first call for a channel that is subscribed closes it, keeps what it holds for the client to
  -- read, and takes it out of the workspace's subscribers; a second call changes nothing.
  pub close_subscription_ends :
      IsWired hub
      → f.once_done ≡ false
      → some_of (on_channel c) (slice_at hub.subscribers f.workspace_id) ≡ true
      → let hub' = (close_subscription c hub).1 in
        (get_elem? hub'.feeds c ≡ some (record f { once_done = true; closed = true }))
        × (some_of (on_channel c) (slice_at hub'.subscribers f.workspace_id) ≡ false)
        × (close_subscription c hub' ≡ (ok tt, hub'))
  close_subscription_ends w fresh hit =
      elim (Option-cases (drop_subscriber c (slice_at hub.subscribers f.workspace_id))) [
        | inl absent ↦ absurd (cc (hit, dropped_none c _ absent))
        | inr (rest, d) ↦ rw (close_listed rest fresh (was_open rest d w) d) (
          ended-closed rest d w,
          rw (get-put, eq_refl) (rest_out rest d w),
          close_again_of c _ _ (ended-closed rest d w) refl,
        )
      ]
