-- ===== src/Collaboration/Invariant.antt =====
-- internal/collaboration: what always holds of the channels and threads while there is no durable store.
use runspace.Collaboration.RepositoryIds.{first_id}
use runspace.Prelude.{
  ◌≡◌, sym, ap, ◌∙◌, inl, inr, String, Option, none, some, List, [], ◌∷◌, ◌==◌, eq_iff, Bool-cases,
}
use runspace.Dict
use runspace.Dict.{Dict, get-put}
use runspace.Errors.{Error}
use runspace.Collaboration.Model.{Thread, Channel, ChannelPatch, Codec, MemoryService, Message}
use runspace.Collaboration.RepositoryIds.Normal.{IsTidy, inherited_repository_ids-AreNames}
use runspace.Collaboration.Channels.{create_channel_with_repositories, update_channel}
use runspace.Collaboration.Threads.{create_thread}
use runspace.Collaboration.Messages.{create_message_as}
use runspace.Collaboration.Quiet.{IsSame}
use runspace.Collaboration.Outcomes.Creating.{Put, Made, create_channel-outcome}
use runspace.Collaboration.Outcomes.Repositories.{repositories_now-IsTidy}
use runspace.Collaboration.Outcomes.Finding.{Answers, Stored-alone}
use runspace.Collaboration.Outcomes.Updating.{Changed, update_channel-outcome}
use runspace.Collaboration.Outcomes.Threading.{Opened, create_thread-outcome}
use runspace.Collaboration.Outcomes.Writing.{Written, create_message-outcome}
use runspace.Collaboration.Calls.{
  Call, make_channel, change_channel, open_thread, write_message, serve, serve_all,
}

-- There is no durable store, and every channel and every thread stands under its id, with the
-- channel's repositories in order.
pub record IsSound {W : Type 0} (s : MemoryService W) : Type 0 where
  pub alone : s.store ≡ none
  pub channels :
      (id : String) (c : Channel) → Dict.get s.channels id ≡ some c → (c.id ≡ id) × IsTidy c
  pub threads : (id : String) (th : Thread) → Dict.get s.threads id ≡ some th → th.id ≡ id

module _ {W : Type 0} where
  IsSound-same : (s t : MemoryService W) → IsSame s t → IsSound s → IsSound t
  IsSound-same s t same sound = record {
    alone = same.store ∙ sound.alone;
    channels = rw same.channels sound.channels;
    threads = rw same.threads sound.threads;
  }

  IsSound-Put : (s t : MemoryService W) (c : Channel) → Put s c t → IsTidy c → IsSound s → IsSound t
  IsSound-Put s t c put tidy sound = record {
    alone = put.store ∙ sound.alone;
    channels = λ id d h.
        let h' = ap (λ m. Dict.get m id) (sym put.channels) ∙ h in
        elim (Bool-cases (c.id == id)) [
          | inl here ↦
              let same : c ≡ d = cc (rw (get-put, here) at h') in
              rw (← same) ((eq_iff c.id id).0 here, tidy)
          | inr away ↦ sound.channels id d (rw (get-put, away) at h')
        ];
    threads = rw put.threads sound.threads;
  }

  IsSound-Opened :
      (s t : MemoryService W) (user_id workspace_id title : String) (th : Thread)
      → Opened s user_id workspace_id title th t
      → IsSound s
      → IsSound t
  IsSound-Opened s t user_id workspace_id title th o sound = record {
    alone = o.store ∙ sound.alone;
    channels = rw o.channels sound.channels;
    threads = λ id d h.
        let h' = ap (λ m. Dict.get m id) (sym o.threads) ∙ h in
        elim (Bool-cases (th.id == id)) [
          | inl here ↦
              let same : th ≡ d = cc (rw (get-put, here) at h') in
              rw (← same) ((eq_iff th.id id).0 here)
          | inr away ↦ sound.threads id d (rw (get-put, away) at h')
        ];
  }

  IsSound-Written :
      (s t : MemoryService W) (actor_id thread_id body : String) (m : Message)
      → Written s actor_id thread_id body m t
      → IsSound s
      → IsSound t
  IsSound-Written s t actor_id thread_id body m w sound = record {
    alone = w.store ∙ sound.alone;
    channels = rw w.channels sound.channels;
    threads = rw w.threads sound.threads;
  }

  Made-IsTidy :
      (s : MemoryService W) (user_id workspace_id name parent_id : String) (ids : List String)
      (config : Dict String) (c : Channel)
      → Made s user_id workspace_id name parent_id ids config c
      → IsTidy c
  Made-IsTidy s user_id workspace_id name parent_id ids config c made = record {
    names = rw made.repositories (inherited_repository_ids-AreNames ids made.parent);
    first = made.first;
  }

  Changed-IsTidy :
      (s : MemoryService W) (user_id workspace_id id : String) (patch : ChannelPatch) (c : Channel)
      → Changed s user_id workspace_id id patch c
      → IsSound s
      → IsTidy c
  Changed-IsTidy s user_id workspace_id id patch c ch sound =
      let now = repositories_now-IsTidy ch.parent patch ch.old (old_tidy ch.known) in
      record {
        names = rw ch.repositories now.names;
        first = ch.first ∙ now.first ∙ ap first_id (sym ch.repositories);
      }
    where
      old_tidy : Answers s.channels s.store user_id id ch.old → IsTidy ch.old
      old_tidy (inl known) = (sound.channels id ch.old known).1
      old_tidy (inr (_, there)) =
          absurd (Stored-alone s.store user_id "" id ch.old sound.alone there)

module _ {W : Type 0} (codec : Codec) (ctx : Option Error) where
  serve-IsSound : (c : Call) (s : MemoryService W) → IsSound s → IsSound (serve codec ctx c s)
  unfolding serve
  serve-IsSound (make_channel user_id workspace_id name parent_id ids config) s sound =
      let t =
        (create_channel_with_repositories codec ctx user_id workspace_id name parent_id ids config
          s).1 in
      elim (create_channel-outcome codec ctx user_id workspace_id name ids config parent_id s) [
        | inl same ↦ IsSound-same s t same sound
        | inr (_, (c, put, made, _)) ↦
            IsSound-Put s t c put (Made-IsTidy s user_id workspace_id name _ ids config c made)
              sound
      ]
  serve-IsSound (change_channel user_id workspace_id id patch) s sound =
      let t = (update_channel codec ctx user_id workspace_id id patch s).1 in
      elim (update_channel-outcome codec ctx user_id workspace_id id patch s) [
        | inl same ↦ IsSound-same s t same sound
        | inr (c, put, changed, _) ↦
            IsSound-Put s t c put (Changed-IsTidy s user_id workspace_id id patch c changed sound)
              sound
      ]
  serve-IsSound (open_thread user_id workspace_id title channel_ids) s sound =
      let t = (create_thread ctx user_id workspace_id codec title channel_ids s).1 in
      elim (create_thread-outcome codec ctx user_id workspace_id title channel_ids s) [
        | inl same ↦ IsSound-same s t same sound
        | inr (_, (th, o)) ↦ IsSound-Opened s t user_id workspace_id title th o sound
      ]
  serve-IsSound (write_message caller_id actor_id workspace_id thread_id actor_type body) s sound =
      let t =
        (create_message_as codec ctx caller_id actor_id workspace_id thread_id actor_type body
          s).1 in
      elim (create_message-outcome codec ctx caller_id actor_id workspace_id thread_id actor_type
        body s) [
          | inl same ↦ IsSound-same s t same sound
          | inr (_, _, _, (m, w)) ↦ IsSound-Written s t actor_id thread_id body m w sound
        ]

  -- While there is no durable store, any sequence of calls, whatever they return, keeps it so that
  -- every channel and thread stands under its own id, that the repositories of a channel are trimmed,
  -- not empty and each there once, and that its single repository is the first of them.
  pub serve_all-IsSound :
      (calls : List Call) (s : MemoryService W) → IsSound s → IsSound (serve_all codec ctx calls s)
  unfolding serve_all
  serve_all-IsSound [] s sound = sound
  serve_all-IsSound (c ∷ cs) s sound =
      serve_all-IsSound cs (serve codec ctx c s) (serve-IsSound c s sound)
