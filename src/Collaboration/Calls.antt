-- ===== src/Collaboration/Calls.antt =====
-- internal/collaboration: any sequence of calls of the service, and what holds throughout.
use runspace.Prelude.{
  ◌≡◌, refl, sym, ap, ◌∙◌, inl, inr, String, ◌++◌, Option, List, [], ◌∷◌, ◌==◌, eq_iff, Bool-cases,
  append_assoc, append-nil,
}
use runspace.Dict
use runspace.Dict.{Dict, get-put}
use runspace.Errors.{Error}
use runspace.Collaboration.Model.{ChannelPatch, Message, Codec, MemoryService}
use runspace.Collaboration.Channels.{create_channel_with_repositories, update_channel}
use runspace.Collaboration.Threads.{create_thread}
use runspace.Collaboration.Messages.{messages_in, or_no_items, create_message_as}
use runspace.Collaboration.Outcomes.Creating.{create_channel-outcome}
use runspace.Collaboration.Outcomes.Updating.{update_channel-outcome}
use runspace.Collaboration.Outcomes.Threading.{create_thread-outcome}
use runspace.Collaboration.Outcomes.Writing.{Written, create_message-outcome}

-- The calls that may change the maps, with their arguments in the order of the source.
pub data Call : Type 0 where
  make_channel : String → String → String → String → List String → Dict String → Call
  change_channel : String → String → String → ChannelPatch → Call
  open_thread : String → String → String → List String → Call
  write_message : String → String → String → String → String → String → Call

module _ {W : Type 0} (codec : Codec) (ctx : Option Error) where
  unfoldable pub serve : Call → MemoryService W → MemoryService W
  serve (make_channel user_id workspace_id name parent_id ids config) s =
      (create_channel_with_repositories codec ctx user_id workspace_id name parent_id ids config
        s).1
  serve (change_channel user_id workspace_id id patch) s =
      (update_channel codec ctx user_id workspace_id id patch s).1
  serve (open_thread user_id workspace_id title channel_ids) s =
      (create_thread ctx user_id workspace_id codec title channel_ids s).1
  serve (write_message caller_id actor_id workspace_id thread_id actor_type body) s =
      (create_message_as codec ctx caller_id actor_id workspace_id thread_id actor_type body s).1

  unfoldable pub serve_all : List Call → MemoryService W → MemoryService W
  unfolding serve
  serve_all [] s = s
  serve_all (c ∷ cs) s = serve_all cs (serve c s)

module _ {W : Type 0} where
  -- Every thread has the messages it had, and more behind them.
  abbrev pub Extends : MemoryService W → MemoryService W → Type 0
  Extends s t =
      (id : String) → (later : List Message) × (messages_in id t ≡ messages_in id s ++ later)

  Extends-same : (s t : MemoryService W) → t.messages ≡ s.messages → Extends s t
  Extends-same s t h id =
      ([], ap (λ d. or_no_items (Dict.get d id)) h ∙ sym (append-nil (messages_in id s)))

  Extends-trans : (s t u : MemoryService W) → Extends s t → Extends t u → Extends s u
  Extends-trans s t u p q id =
      let (a, e) = p id in
      let (b, e') = q id in (a ++ b, e' ∙ ap (λ l. l ++ b) e ∙ append_assoc (messages_in id s) a b)

  Extends-Written :
      (s t : MemoryService W) (actor_id thread_id body : String) (m : Message)
      → Written s actor_id thread_id body m t
      → Extends s t
  Extends-Written s t actor_id thread_id body m w id = elim (Bool-cases (thread_id == id)) [
    | inl here ↦
        let same = (eq_iff thread_id id).0 here in
        (
          m ∷ [],
          ap (λ d. or_no_items (Dict.get d id)) w.messages
              ∙ rw (get-put, here) (ap (λ k. messages_in k s ++ m ∷ []) same),
        )
    | inr away ↦ (
      [],
      ap (λ d. or_no_items (Dict.get d id)) w.messages
          ∙ rw (get-put, away) (sym (append-nil (messages_in id s))),
    )
  ]

module _ {W : Type 0} (codec : Codec) (ctx : Option Error) where
  serve-Extends : (c : Call) (s : MemoryService W) → Extends s (serve codec ctx c s)
  unfolding serve
  serve-Extends (make_channel user_id workspace_id name parent_id ids config) s =
      elim (create_channel-outcome codec ctx user_id workspace_id name ids config parent_id s) [
        | inl same ↦
            Extends-same s
              ((create_channel_with_repositories codec ctx user_id workspace_id name parent_id ids
                config s).1)
              same.messages
        | inr (_, (c, put, _, _)) ↦
            Extends-same s
              ((create_channel_with_repositories codec ctx user_id workspace_id name parent_id ids
                config s).1)
              put.messages
      ]
  serve-Extends (change_channel user_id workspace_id id patch) s =
      elim (update_channel-outcome codec ctx user_id workspace_id id patch s) [
        | inl same ↦
            Extends-same s ((update_channel codec ctx user_id workspace_id id patch s).1)
              same.messages
        | inr (c, put, _, _) ↦
            Extends-same s ((update_channel codec ctx user_id workspace_id id patch s).1)
              put.messages
      ]
  serve-Extends (open_thread user_id workspace_id title channel_ids) s =
      elim (create_thread-outcome codec ctx user_id workspace_id title channel_ids s) [
        | inl same ↦
            Extends-same s ((create_thread ctx user_id workspace_id codec title channel_ids s).1)
              same.messages
        | inr (_, (th, o)) ↦
            Extends-same s ((create_thread ctx user_id workspace_id codec title channel_ids s).1)
              o.messages
      ]
  serve-Extends (write_message caller_id actor_id workspace_id thread_id actor_type body) s =
      elim (create_message-outcome codec ctx caller_id actor_id workspace_id thread_id actor_type
        body s) [
          | inl same ↦
              Extends-same s
                ((create_message_as codec ctx caller_id actor_id workspace_id thread_id actor_type
                  body s).1)
                same.messages
          | inr (_, _, _, (m, w)) ↦
              Extends-Written s
                ((create_message_as codec ctx caller_id actor_id workspace_id thread_id actor_type
                  body s).1)
                actor_id thread_id body m w
        ]

  -- Through any sequence of calls, whatever they return, each thread keeps the messages that it has,
  -- in their order, and gets new ones only behind them.
  pub serve_all-Extends :
      (calls : List Call) (s : MemoryService W) → Extends s (serve_all codec ctx calls s)
  unfolding serve_all
  serve_all-Extends [] s = Extends-same s s refl
  serve_all-Extends (c ∷ cs) s =
      Extends-trans s (serve codec ctx c s) (serve_all codec ctx cs (serve codec ctx c s))
        (serve-Extends c s) (serve_all-Extends cs (serve codec ctx c s))
