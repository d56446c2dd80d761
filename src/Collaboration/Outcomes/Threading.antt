-- ===== src/Collaboration/Outcomes/Threading.antt =====
-- internal/collaboration/service.go: what CreateThread leaves behind.
use runspace.Prelude.{
  ◌≡◌, refl, ap, ◌∙◌, ◌⊎◌, inl, inr, String, false, ℕ, Option, none, some, List, [], ◌∷◌, arith,
  eq_iff, Bool-cases, subst,
}
use runspace.Text.{trim_space, is_blank}
use runspace.Dict
use runspace.Dict.{Dict}
use runspace.Errors.{Error, ok, collaboration_invalid}
use runspace.Exec.{fail_if-ok, Exec, pure, fail_if, gets}
use runspace.Collaboration.Model.{Thread, Channel, Store, Codec, MemoryService, ◌>>=◌}
use runspace.Collaboration.Channels.{get_channel}
use runspace.Collaboration.Threads.{
  made_thread, save_thread, persist_thread, project_thread, store_thread, validate_thread_create,
  named_channel, resolve_thread_channel, create_thread,
}
use runspace.Collaboration.Quiet.{
  IsSame, IsQuiet, unchanged, IsSame-trans, after_quiet, plain_rules, IsQuiet-call,
  read_clock-IsQuiet, next_id-IsQuiet, publish-IsQuiet, get_channel-IsQuiet,
}
use runspace.Collaboration.Outcomes.Granting.{MayWrite, bind-ok, checks-ok, can_write-MayWrite}
use runspace.Collaboration.Outcomes.Updating.{get_channel-known}
use runspace.Collaboration.Outcomes.Finding.{Answers}

-- There is no channel, or one in the workspace, which the map has or else the durable store.
abbrev pub StandsInChannels :
    {W : Type 0} → Dict Channel → Option (Store W) → String → String → String → Type 0
StandsInChannels channels store user_id workspace_id id =
    (id ≡ "")
    ⊎ ((c : Channel) × Answers channels store user_id id c × (c.workspace_id ≡ workspace_id))

module _ {W : Type 0} where
  save_thread-IsQuiet : (th : Thread) (store : Option (Store W)) → IsQuiet (save_thread th store)
  unfolding save_thread
  save_thread-IsQuiet th none = record { at = unchanged }
  save_thread-IsQuiet th (some store) = IsQuiet-call (store.create_thread th)

  persist_thread-IsQuiet : (codec : Codec) (th : Thread) → IsQuiet {W = W} (persist_thread codec th)
  unfolding persist_thread
  persist_thread-IsQuiet codec th = search (plain_rules, save_thread-IsQuiet, publish-IsQuiet)

  project_thread-IsQuiet :
      (th : Thread) (graph : Option (Thread → Exec W (Unit {0})))
      → IsQuiet (project_thread th graph)
  unfolding project_thread
  project_thread-IsQuiet th none = record { at = unchanged }
  project_thread-IsQuiet th (some graph) = search plain_rules

  validate_thread_create-IsQuiet :
      (ctx : Option Error) (user_id workspace_id title : String)
      → IsQuiet {W = W} (validate_thread_create ctx user_id workspace_id title)
  unfolding validate_thread_create
  validate_thread_create-IsQuiet ctx user_id workspace_id title = search plain_rules

  validate_thread_create-ok :
      (ctx : Option Error) (user_id workspace_id title : String) (s t : MemoryService W)
      → validate_thread_create ctx user_id workspace_id title s ≡ (ok tt, t)
      → (is_blank title ≡ false) × MayWrite s workspace_id user_id
  unfolding validate_thread_create
  validate_thread_create-ok ctx user_id workspace_id title s t h =
      let (valid, granted) = checks-ok ctx _ _ _ s t tt h in
      (ground (arith, valid), can_write-MayWrite s.authorizer workspace_id user_id s t refl granted)

  named_channel-IsQuiet :
      (ctx : Option Error) (user_id workspace_id id : String)
      → IsQuiet {W = W} (named_channel ctx user_id workspace_id id)
  unfolding named_channel
  named_channel-IsQuiet ctx user_id workspace_id id = search (plain_rules, get_channel-IsQuiet)

  resolve_thread_channel-IsQuiet :
      (ctx : Option Error) (user_id workspace_id : String) (ids : List String)
      → IsQuiet {W = W} (resolve_thread_channel ctx user_id workspace_id ids)
  unfolding resolve_thread_channel
  resolve_thread_channel-IsQuiet ctx user_id workspace_id [] = record { at = unchanged }
  resolve_thread_channel-IsQuiet ctx user_id workspace_id (id ∷ ids) =
      elim (Bool-cases (is_blank id)) [
        | inl blank ↦ rw blank (record { at = unchanged })
        | inr named ↦ rw named (named_channel-IsQuiet ctx user_id workspace_id (trim_space id))
      ]

  abbrev pub StandsIn : MemoryService W → String → String → String → Type 0
  StandsIn s user_id workspace_id id = StandsInChannels s.channels s.store user_id workspace_id id

  named_channel-StandsIn :
      (ctx : Option Error) (user_id workspace_id id found : String) (s t : MemoryService W)
      → named_channel ctx user_id workspace_id id s ≡ (ok found, t)
      → StandsIn s user_id workspace_id found
  unfolding named_channel
  named_channel-StandsIn ctx user_id workspace_id id found s t h =
      let (channel, u, e, rest) = bind-ok (get_channel ctx user_id id) _ s t found h in
      let (_, v, e', end) =
        bind-ok (fail_if _ collaboration_invalid) (λ _. pure id) u t found rest in
      let (c, known, is) = get_channel-known ctx user_id id s u channel e in
      let place : c.workspace_id ≡ workspace_id =
        ground (arith, (fail_if-ok _ _ u v e').0, eq_iff channel.workspace_id workspace_id, is) in
      let same : id ≡ found = cc (ap (λ p. p.0) end) in inr (rw (← same) (c, known, place))

  resolve_thread_channel-StandsIn :
      (ctx : Option Error) (user_id workspace_id : String) (ids : List String) (found : String)
      (s t : MemoryService W)
      → resolve_thread_channel ctx user_id workspace_id ids s ≡ (ok found, t)
      → StandsIn s user_id workspace_id found
  unfolding resolve_thread_channel
  resolve_thread_channel-StandsIn ctx user_id workspace_id [] found s t h =
      inl (cc (ap (λ p. p.0) h))
  resolve_thread_channel-StandsIn ctx user_id workspace_id (id ∷ ids) found s t h =
      elim (Bool-cases (is_blank id)) [
        | inl blank ↦ inl (cc (ap (λ p. p.0) (rw blank at h)))
        | inr named ↦
            named_channel-StandsIn ctx user_id workspace_id (trim_space id) found s t
              (rw named at h)
      ]

  -- A thread is put in, and the channels and messages stay.
  pub record Opened (s : MemoryService W) (user_id workspace_id title : String) (th : Thread)
      (t : MemoryService W) : Type 0 where
    pub threads : t.threads ≡ Dict.put s.threads th.id th
    pub channels : t.channels ≡ s.channels
    pub messages : t.messages ≡ s.messages
    pub store : t.store ≡ s.store
    pub place : th.workspace_id ≡ workspace_id
    pub maker : th.created_by ≡ user_id
    pub title_kept : th.title ≡ trim_space title
    pub channel : StandsIn s user_id workspace_id th.channel_id
    pub allowed : MayWrite s workspace_id user_id

  rest-IsQuiet :
      (codec : Codec) (th : Thread)
      → IsQuiet {W = W} (
          persist_thread codec th >>= λ _. gets (λ (v : MemoryService W). v.graph) >>= λ graph.
          project_thread th graph >>= λ _. pure th)
  rest-IsQuiet codec th = search (plain_rules, persist_thread-IsQuiet, project_thread-IsQuiet)

  stored-Opened :
      (codec : Codec) (th : Thread) (s u : MemoryService W)
      → IsSame s u
      → let t =
          ((store_thread th >>= λ _. persist_thread codec th >>= λ _.
          gets (λ (v : MemoryService W). v.graph) >>= λ graph.
          project_thread th graph >>= λ _. pure th)
            u).1 in
        (t.threads ≡ Dict.put s.threads th.id th)
        × (t.channels ≡ s.channels)
        × (t.messages ≡ s.messages)
        × (t.store ≡ s.store)
  unfolding ◌>>=◌ store_thread
  stored-Opened codec th s u same =
      let after = (rest-IsQuiet codec th).at (record u { threads = Dict.put u.threads th.id th }) in
      (
        after.threads ∙ ap (λ d. Dict.put d th.id th) same.threads,
        after.channels ∙ same.channels,
        after.messages ∙ same.messages,
        after.store ∙ same.store,
      )

module _ {W : Type 0} (codec : Codec) (ctx : Option Error)
    (user_id workspace_id title : String) where
  -- Creating a thread leaves the channels and messages as they are. It leaves the threads too, or the
  -- caller may write to the workspace, the title is not blank, and one thread is put in: in that
  -- workspace, with the title trimmed, and in no channel or in one of that workspace, which the map has
  -- under that id, or else a list that the durable store answers.
  pub create_thread-outcome :
      (channel_ids : List String) (s : MemoryService W)
      → let t = (create_thread ctx user_id workspace_id codec title channel_ids s).1 in
        IsSame s t
        ⊎ ((is_blank title ≡ false) × ((th : Thread) × Opened s user_id workspace_id title th t))
  unfolding create_thread
  create_thread-outcome channel_ids s =
      after_quiet _ _ s Q (validate_thread_create-IsQuiet ctx user_id workspace_id title)
        (λ t q. inl q)
        λ _ t e q.
          after_quiet _ _ t Q (resolve_thread_channel-IsQuiet ctx user_id workspace_id channel_ids)
            (λ u q'. inl (IsSame-trans q q'))
            λ channel_id u e' q'.
              after_quiet _ _ u Q read_clock-IsQuiet
                (λ v r. inl (IsSame-trans (IsSame-trans q q') r))
                λ now v _ r.
                  let before = IsSame-trans (IsSame-trans q q') r in
                  after_quiet _ _ v Q (next_id-IsQuiet "thread")
                    (λ w r'. inl (IsSame-trans before r'))
                    λ id w _ r'. opened t u v w channel_id now id q e e' (IsSame-trans before r')
    where
      Q : MemoryService W → Type 0
      Q t =
          IsSame s t
          ⊎ ((is_blank title ≡ false) × ((th : Thread) × Opened s user_id workspace_id title th t))

      opened :
          (t u v w : MemoryService W) (channel_id : String) (now : ℕ) (id : String)
          → IsSame s t
          → validate_thread_create ctx user_id workspace_id title s ≡ (ok tt, t)
          → resolve_thread_channel ctx user_id workspace_id channel_ids t ≡ (ok channel_id, u)
          → IsSame s w
          → let th = made_thread id workspace_id channel_id title user_id now in
            Q
              ((store_thread th >>= λ _. persist_thread codec th >>= λ _.
                  gets (λ (v : MemoryService W). v.graph) >>= λ graph.
                  project_thread th graph >>= λ _. pure th)
                w).1
      opened t u v w channel_id now id q e e' before =
          let (titled, granted) = validate_thread_create-ok ctx user_id workspace_id title s t e in
          let (threads, channels, messages, store) =
            stored-Opened codec (made_thread id workspace_id channel_id title user_id now) s w
              before in
          inr (
            titled,
            (
              made_thread id workspace_id channel_id title user_id now,
              record {
                threads = threads;
                channels = channels;
                messages = messages;
                store = store;
                place = refl;
                maker = refl;
                title_kept = refl;
                channel =
                    subst (λ d. StandsInChannels d s.store user_id workspace_id channel_id)
                      q.channels
                      (subst (λ d. StandsInChannels t.channels d user_id workspace_id channel_id)
                        q.store
                        (resolve_thread_channel-StandsIn ctx user_id workspace_id channel_ids
                          channel_id t u e'));
                allowed = granted;
              },
            ),
          )
