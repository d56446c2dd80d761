-- ===== src/Collaboration/Outcomes/Writing.antt =====
-- internal/collaboration/messages.go: what CreateMessage and its kin leave behind.
use runspace.Prelude.{
  ◌≡◌, refl, sym, ap, ◌∙◌, ◌⊎◌, inl, inr, String, false, ◌++◌, Option, none, some, [], ◌∷◌, arith,
  ◌==◌, eq_iff, Bool-cases, subst,
}
use runspace.Text.{trim_space, is_blank}
use runspace.Dict
use runspace.Dict.{Dict}
use runspace.Errors.{Error, ok}
use runspace.Exec.{Exec, pure}
use runspace.Collaboration.Model.{
  Thread, Message, Store, Codec, MemoryService, ◌>>=◌, can_write, publish,
}
use runspace.Collaboration.Messages.{
  made_message, messages_in, append_message, save_message, stored_thread, known_thread,
  resolve_thread, validate_message, create_message_as, or_no_items,
}
use runspace.Collaboration.Quiet.{
  IsSame, IsQuiet, unchanged, IsSame-trans, after_quiet, plain_rules, IsQuiet-call,
  read_clock-IsQuiet, next_id-IsQuiet, IsQuiet-gets, publish-IsQuiet, can_write-IsQuiet,
}
use runspace.Collaboration.Outcomes.Granting.{MayWrite, bind-ok, checks-ok, can_write-MayWrite}

module _ {W : Type 0} where
  save_message-IsQuiet : (m : Message) (store : Option (Store W)) → IsQuiet (save_message m store)
  unfolding save_message
  save_message-IsQuiet m none = record { at = unchanged }
  save_message-IsQuiet m (some store) = IsQuiet-call (store.create_message m)

  stored_thread-IsQuiet :
      (user_id workspace_id id : String) (store : Option (Store W))
      → IsQuiet (stored_thread user_id workspace_id id store)
  unfolding stored_thread
  stored_thread-IsQuiet user_id workspace_id id none = record { at = unchanged }
  stored_thread-IsQuiet user_id workspace_id id (some store) = search plain_rules

  known_thread-IsQuiet :
      (workspace_id : String) (found : Option Thread) (m : Exec (MemoryService W) Thread)
      → IsQuiet m
      → IsQuiet (known_thread workspace_id found m)
  unfolding known_thread
  known_thread-IsQuiet workspace_id none m q = q
  known_thread-IsQuiet workspace_id (some th) m q =
      elim (Bool-cases (th.workspace_id == workspace_id)) [
        | inl here ↦ rw here (record { at = unchanged })
        | inr away ↦ rw away q
      ]

  resolve_thread-IsQuiet :
      (user_id workspace_id id : String) → IsQuiet {W = W} (resolve_thread user_id workspace_id id)
  unfolding resolve_thread
  resolve_thread-IsQuiet user_id workspace_id id =
      search (plain_rules, known_thread-IsQuiet, stored_thread-IsQuiet)

  -- The thread that a message goes to: a known one of the workspace, or one that the durable store
  -- answers for.
  abbrev pub GoesTo : MemoryService W → String → String → Type 0
  GoesTo s workspace_id id =
      ((th : Thread) × (Dict.get s.threads id ≡ some th) × (th.workspace_id ≡ workspace_id))
      ⊎ ((store : Store W) × (s.store ≡ some store))

  resolve_thread-GoesTo :
      (user_id workspace_id id : String) (s t : MemoryService W) (th : Thread)
      → resolve_thread user_id workspace_id id s ≡ (ok th, t)
      → GoesTo s workspace_id id
  unfolding ◌>>=◌ resolve_thread known_thread stored_thread
  resolve_thread-GoesTo user_id workspace_id id s t th h =
      from (Dict.get s.threads id) s.store refl refl h
    where
      from :
          (found : Option Thread) (store : Option (Store W))
          → Dict.get s.threads id ≡ found
          → s.store ≡ store
          → known_thread workspace_id found (stored_thread user_id workspace_id id store) s
            ≡ (ok th, t)
          → GoesTo s workspace_id id
      from found (some store) e there h' = inr (store, there)
      from none none e there h' = absurd (cc (ap (λ p. p.0) h'))
      from (some known) none e there h' = elim (Bool-cases (known.workspace_id == workspace_id)) [
        | inl here ↦ inl (known, e, (eq_iff known.workspace_id workspace_id).0 here)
        | inr away ↦ absurd (cc (ap (λ p. p.0) (rw away at h')))
      ]

  GoesTo-same :
      {s u : MemoryService W} (workspace_id id : String)
      → IsSame s u
      → GoesTo u workspace_id id
      → GoesTo s workspace_id id
  GoesTo-same workspace_id id same (inl (th, known, place)) =
      inl (th, ap (λ d. Dict.get d id) (sym same.threads) ∙ known, place)
  GoesTo-same workspace_id id same (inr (store, there)) = inr (store, sym same.store ∙ there)

  validate_message-IsQuiet :
      (codec : Codec) (ctx : Option Error) (caller_id actor_id workspace_id thread_id body : String)
      → IsQuiet {W = W} (validate_message codec ctx caller_id actor_id workspace_id thread_id body)
  unfolding validate_message
  validate_message-IsQuiet codec ctx caller_id actor_id workspace_id thread_id body =
      search (plain_rules, resolve_thread-IsQuiet)

  validate_message-ok :
      (codec : Codec) (ctx : Option Error) (caller_id actor_id workspace_id thread_id body : String)
      (s t : MemoryService W) (th : Thread)
      → validate_message codec ctx caller_id actor_id workspace_id thread_id body s ≡ (ok th, t)
      → (is_blank body ≡ false)
        × MayWrite s workspace_id caller_id
        × GoesTo s workspace_id thread_id
  unfolding validate_message
  validate_message-ok codec ctx caller_id actor_id workspace_id thread_id body s t th h =
      let (valid, rest) = checks-ok ctx _ _ _ s t th h in
      let (_, u, e, found) =
        bind-ok (can_write s.authorizer workspace_id caller_id) _ s t th rest in
      let same =
        subst (IsSame s) (ap (λ p. p.1) e)
          ((can_write-IsQuiet s.authorizer workspace_id caller_id).at s) in
      (
        ground (arith, valid),
        can_write-MayWrite s.authorizer workspace_id caller_id s u refl e,
        GoesTo-same workspace_id thread_id same
            (resolve_thread-GoesTo caller_id workspace_id thread_id u t th found),
      )

  -- A message is written at the end of its thread's, and nothing else changes.
  pub record Written (s : MemoryService W) (actor_id thread_id body : String) (m : Message)
      (t : MemoryService W) : Type 0 where
    pub messages : t.messages ≡ Dict.put s.messages thread_id (messages_in thread_id s ++ m ∷ [])
    pub threads : t.threads ≡ s.threads
    pub channels : t.channels ≡ s.channels
    pub store : t.store ≡ s.store
    pub place : m.thread_id ≡ thread_id
    pub writer : m.actor_id ≡ actor_id
    pub body_kept : m.body ≡ trim_space body

  rest-IsQuiet :
      (codec : Codec) (workspace_id actor_id : String) (m : Message) (store : Option (Store W))
      → IsQuiet {W = W} (
          save_message m store >>= λ _.
          publish codec "message.created" workspace_id actor_id m.actor_type (codec.message_json m)
          >>= λ _. pure m)
  rest-IsQuiet codec workspace_id actor_id m store =
      search (plain_rules, save_message-IsQuiet, publish-IsQuiet)

  appended :
      (codec : Codec) (workspace_id actor_id : String) (m : Message) (store : Option (Store W))
      (s u : MemoryService W)
      → IsSame s u
      → let t =
          ((append_message m >>= λ _. save_message m store >>= λ _.
          publish codec "message.created" workspace_id actor_id m.actor_type (codec.message_json m)
          >>= λ _. pure m)
            u).1 in
        (t.messages ≡ Dict.put s.messages m.thread_id (messages_in m.thread_id s ++ m ∷ []))
        × (t.threads ≡ s.threads)
        × (t.channels ≡ s.channels)
        × (t.store ≡ s.store)
  unfolding ◌>>=◌ append_message
  appended codec workspace_id actor_id m store s u same =
      let after = (rest-IsQuiet codec workspace_id actor_id m store).at (record u {
        messages = Dict.put u.messages m.thread_id (messages_in m.thread_id u ++ m ∷ []);
      }) in
      (
        after.messages
            ∙ ap (λ d. Dict.put d m.thread_id (or_no_items (Dict.get d m.thread_id) ++ m ∷ []))
                same.messages,
        after.threads ∙ same.threads,
        after.channels ∙ same.channels,
        after.store ∙ same.store,
      )

module _ {W : Type 0} (codec : Codec) (ctx : Option Error)
    (caller_id actor_id workspace_id thread_id actor_type body : String) where
  -- Writing a message, in one's own name or an agent's, leaves the channels and threads as they are.
  -- It leaves the messages too, or the caller may write to the workspace, the text is not blank, the
  -- thread is a known one of the workspace or there is a durable store to answer for it, and the one
  -- change is that the thread has one message more, at the end, with the text trimmed.
  pub create_message-outcome :
      (s : MemoryService W)
      → let t =
          (create_message_as codec ctx caller_id actor_id workspace_id thread_id actor_type body
            s).1 in
        IsSame s t
        ⊎ ((is_blank body ≡ false)
            × MayWrite s workspace_id caller_id
            × GoesTo s workspace_id thread_id
            × ((m : Message) × Written s actor_id thread_id body m t))
  unfolding create_message_as
  create_message-outcome s =
      after_quiet _ _ s Q
        (validate_message-IsQuiet codec ctx caller_id actor_id workspace_id thread_id body)
        (λ t q. inl q)
        λ th t e q.
          let (texted, granted, goes) =
            validate_message-ok codec ctx caller_id actor_id workspace_id thread_id body s t th e in
          after_quiet _ _ t Q (IsQuiet-gets (λ u. u.store)) (λ u r. inl (IsSame-trans q r))
            λ store u _ r.
              after_quiet _ _ u Q read_clock-IsQuiet
                (λ v r'. inl (IsSame-trans (IsSame-trans q r) r'))
                λ now v _ r'.
                  let before = IsSame-trans (IsSame-trans q r) r' in
                  after_quiet _ _ v Q (next_id-IsQuiet "message")
                    (λ w r''. inl (IsSame-trans before r''))
                    λ id w _ r''.
                      let m = made_message id thread_id actor_id actor_type body now in
                      let (messages, threads, channels, kept) =
                        appended codec workspace_id actor_id m store s w
                          (IsSame-trans before r'') in
                      inr (
                        texted,
                        granted,
                        goes,
                        (
                          m,
                          record {
                            messages = messages;
                            threads = threads;
                            channels = channels;
                            store = kept;
                            place = refl;
                            writer = refl;
                            body_kept = refl;
                          },
                        ),
                      )
    where
      Q : MemoryService W → Type 0
      Q t =
          IsSame s t
          ⊎ ((is_blank body ≡ false)
              × MayWrite s workspace_id caller_id
              × GoesTo s workspace_id thread_id
              × ((m : Message) × Written s actor_id thread_id body m t))
