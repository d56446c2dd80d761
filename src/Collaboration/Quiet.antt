-- ===== src/Collaboration/Quiet.antt =====
-- internal/collaboration: the actions that leave the threads, messages and channels alone.
use runspace.Prelude.{◌≡◌, refl, ◌∙◌, String, Bool, true, false, Option, none, some}
use runspace.Errors.{Error, Result, ok, err}
use runspace.Exec.{Exec, continue, pure, fail, lift, gets, or_fail, fail_if, check_context}
use runspace.Contracts.Event.{EventEnvelope}
use runspace.Collaboration.Model.{
  Channel, Authorizer, ChannelStore, Codec, MemoryService, ◌>>=◌, call, try_call, read_clock,
  next_id, can_read, can_write, send, publish, ChannelPatch,
}
use runspace.Collaboration.Channels.{
  stored_channel, find_persisted_parent, load_channel, or_persisted, resolve_parent, get_channel,
  validate_channel_access, validate_channel_create, persist_channel, announce_channel,
  load_writable_channel, apply_channel_patch,
}

-- The maps, and what the service was made with.
pub record IsSame {W : Type 0} (s t : MemoryService W) : Type 0 where
  pub threads : t.threads ≡ s.threads
  pub messages : t.messages ≡ s.messages
  pub channels : t.channels ≡ s.channels
  pub authorizer : t.authorizer ≡ s.authorizer
  pub store : t.store ≡ s.store

module _ {W : Type 0} where
  pub unchanged : (s : MemoryService W) → IsSame s s
  unchanged s = record {
    threads = refl;
    messages = refl;
    channels = refl;
    authorizer = refl;
    store = refl;
  }

  pub IsSame-trans : {s t u : MemoryService W} → IsSame s t → IsSame t u → IsSame s u
  IsSame-trans p q = record {
    threads = q.threads ∙ p.threads;
    messages = q.messages ∙ p.messages;
    channels = q.channels ∙ p.channels;
    authorizer = q.authorizer ∙ p.authorizer;
    store = q.store ∙ p.store;
  }

pub record IsQuiet {W A : Type 0} (m : Exec (MemoryService W) A) : Type 0 where
  pub at : (s : MemoryService W) → IsSame s (m s).1

module _ {W A B : Type 0} where
  -- What holds after a sequence with a quiet first part: it holds where the first part fails, and
  -- where the second goes on from its result.
  pub after_quiet :
      (m : Exec (MemoryService W) A) (f : A → Exec (MemoryService W) B) (s : MemoryService W)
      (Q : MemoryService W → Type 0)
      → IsQuiet m
      → ((t : MemoryService W) → IsSame s t → Q t)
      → ((a : A) (t : MemoryService W) → m s ≡ (ok a, t) → IsSame s t → Q (f a t).1)
      → Q ((m >>= f) s).1
  unfolding ◌>>=◌
  after_quiet m f s Q quiet failed went_on = after (m s).0 (m s).1 refl (quiet.at s)
    where
      after :
          (r : Result A) (t : MemoryService W) → m s ≡ (r, t) → IsSame s t → Q (continue r f t).1
      after (ok a) t e same = went_on a t e same
      after (err e) t _ same = failed t same

  pub IsQuiet-bind :
      (m : Exec (MemoryService W) A) (f : A → Exec (MemoryService W) B)
      → IsQuiet m
      → ((a : A) → IsQuiet (f a))
      → IsQuiet (m >>= f)
  IsQuiet-bind m f qm qf = record {
    at = λ s.
        after_quiet m f s (IsSame s) qm (λ t same. same)
          (λ a t e same. IsSame-trans same ((qf a).at t));
  }

module _ {W A : Type 0} where
  pub IsQuiet-pure : (a : A) → IsQuiet {W = W} (pure a)
  IsQuiet-pure a = record { at = unchanged }

  pub IsQuiet-fail : (e : Error) → IsQuiet {W = W} {A = A} (fail e)
  IsQuiet-fail e = record { at = unchanged }

  pub IsQuiet-lift : (r : Result A) → IsQuiet {W = W} (lift r)
  IsQuiet-lift r = record { at = unchanged }

  pub IsQuiet-gets : (f : MemoryService W → A) → IsQuiet (gets f)
  IsQuiet-gets f = record { at = unchanged }

  pub IsQuiet-call : (m : Exec W A) → IsQuiet (call m)
  unfolding call
  IsQuiet-call m = record {
    at = λ s. record {
      threads = refl;
      messages = refl;
      channels = refl;
      authorizer = refl;
      store = refl;
    };
  }

  pub IsQuiet-try_call : (m : Exec W A) → IsQuiet (try_call m)
  unfolding try_call
  IsQuiet-try_call m = record {
    at = λ s. record {
      threads = refl;
      messages = refl;
      channels = refl;
      authorizer = refl;
      store = refl;
    };
  }

  pub IsQuiet-or_fail : (o : Option A) (e : Error) → IsQuiet {W = W} (or_fail o e)
  IsQuiet-or_fail none e = record { at = unchanged }
  IsQuiet-or_fail (some a) e = record { at = unchanged }

module _ {W : Type 0} where
  pub IsQuiet-fail_if : (b : Bool) (e : Error) → IsQuiet {W = W} (fail_if b e)
  IsQuiet-fail_if true e = record { at = unchanged }
  IsQuiet-fail_if false e = record { at = unchanged }

  pub IsQuiet-check_context : (ctx : Option Error) → IsQuiet {W = W} (check_context ctx)
  IsQuiet-check_context none = record { at = unchanged }
  IsQuiet-check_context (some e) = record { at = unchanged }

  pub read_clock-IsQuiet : IsQuiet {W = W} read_clock
  unfolding read_clock
  read_clock-IsQuiet = record {
    at = λ s. record {
      threads = refl;
      messages = refl;
      channels = refl;
      authorizer = refl;
      store = refl;
    };
  }

  pub next_id-IsQuiet : (prefix : String) → IsQuiet {W = W} (next_id prefix)
  unfolding next_id
  next_id-IsQuiet prefix = record {
    at = λ s. record {
      threads = refl;
      messages = refl;
      channels = refl;
      authorizer = refl;
      store = refl;
    };
  }

  pub can_write-IsQuiet :
      (a : Option (Authorizer W)) (workspace_id user_id : String)
      → IsQuiet (can_write a workspace_id user_id)
  unfolding can_write
  can_write-IsQuiet none workspace_id user_id = record { at = unchanged }
  can_write-IsQuiet (some a) workspace_id user_id = IsQuiet-call (a.can_write workspace_id user_id)

  pub can_read-IsQuiet :
      (a : Option (Authorizer W)) (workspace_id user_id : String)
      → IsQuiet (can_read a workspace_id user_id)
  unfolding can_read
  can_read-IsQuiet none workspace_id user_id = record { at = unchanged }
  can_read-IsQuiet (some a) workspace_id user_id = IsQuiet-call (a.can_read workspace_id user_id)

pub ruleset plain_rules = (
  IsQuiet-bind, IsQuiet-pure, IsQuiet-fail, IsQuiet-lift, IsQuiet-gets, IsQuiet-call,
  IsQuiet-try_call, IsQuiet-or_fail, IsQuiet-fail_if, IsQuiet-check_context, read_clock-IsQuiet,
  next_id-IsQuiet, can_write-IsQuiet, can_read-IsQuiet,
)

module _ {W : Type 0} where
  pub send-IsQuiet :
      (p : Option (EventEnvelope → Exec W (Unit {0}))) (r : Result EventEnvelope)
      → IsQuiet (send p r)
  unfolding send
  send-IsQuiet none r = record { at = unchanged }
  send-IsQuiet (some p) (ok e) = IsQuiet-call (p e)
  send-IsQuiet (some p) (err e) = record { at = unchanged }

  pub publish-IsQuiet :
      (codec : Codec) (type workspace_id actor_id actor_type : String) (payload : Result String)
      → IsQuiet {W = W} (publish codec type workspace_id actor_id actor_type payload)
  unfolding publish
  publish-IsQuiet codec type workspace_id actor_id actor_type payload =
      search (plain_rules, send-IsQuiet)

  stored_channel-IsQuiet :
      (user_id workspace_id id : String) (store : Option (ChannelStore W))
      → IsQuiet (stored_channel user_id workspace_id id store)
  unfolding stored_channel
  stored_channel-IsQuiet user_id workspace_id id none = record { at = unchanged }
  stored_channel-IsQuiet user_id workspace_id id (some store) = search plain_rules

  or_persisted-IsQuiet :
      (c : Option Channel) (ask : Bool) (m : Exec (MemoryService W) (Option Channel))
      → IsQuiet m
      → IsQuiet (or_persisted c ask m)
  unfolding or_persisted
  or_persisted-IsQuiet (some c) ask m q = record { at = unchanged }
  or_persisted-IsQuiet none false m q = record { at = unchanged }
  or_persisted-IsQuiet none true m q = q

  pub resolve_parent-IsQuiet :
      (user_id workspace_id parent_id : String)
      → IsQuiet {W = W} (resolve_parent user_id workspace_id parent_id)
  unfolding resolve_parent find_persisted_parent
  resolve_parent-IsQuiet user_id workspace_id parent_id =
      search (plain_rules, or_persisted-IsQuiet, stored_channel-IsQuiet)

  pub get_channel-IsQuiet :
      (ctx : Option Error) (user_id channel_id : String)
      → IsQuiet {W = W} (get_channel ctx user_id channel_id)
  unfolding get_channel load_channel
  get_channel-IsQuiet ctx user_id channel_id =
      search (plain_rules, or_persisted-IsQuiet, stored_channel-IsQuiet) depth 16

  pub validate_channel_access-IsQuiet :
      (ctx : Option Error) (user_id workspace_id : String)
      → IsQuiet {W = W} (validate_channel_access ctx user_id workspace_id)
  unfolding validate_channel_access
  validate_channel_access-IsQuiet ctx user_id workspace_id = search plain_rules

  pub validate_channel_create-IsQuiet :
      (ctx : Option Error) (user_id workspace_id name : String)
      → IsQuiet {W = W} (validate_channel_create ctx user_id workspace_id name)
  unfolding validate_channel_create
  validate_channel_create-IsQuiet ctx user_id workspace_id name = search plain_rules

  persist_channel-IsQuiet :
      (f : ChannelStore W → Exec W (Unit {0})) (store : Option (ChannelStore W))
      → IsQuiet (persist_channel f store)
  unfolding persist_channel
  persist_channel-IsQuiet f none = record { at = unchanged }
  persist_channel-IsQuiet f (some store) = IsQuiet-call (f store)

  pub announce_channel-IsQuiet :
      (codec : Codec) (ctx : Option Error) (user_id workspace_id : String)
      (f : ChannelStore W → Exec W (Unit {0})) (type : String) (c : Channel)
      → IsQuiet (announce_channel codec ctx user_id workspace_id f type c)
  unfolding announce_channel
  announce_channel-IsQuiet codec ctx user_id workspace_id f type c =
      search (plain_rules, persist_channel-IsQuiet, publish-IsQuiet)

  pub load_writable_channel-IsQuiet :
      (ctx : Option Error) (user_id workspace_id channel_id : String)
      → IsQuiet {W = W} (load_writable_channel ctx user_id workspace_id channel_id)
  unfolding load_writable_channel
  load_writable_channel-IsQuiet ctx user_id workspace_id channel_id =
      search (plain_rules, get_channel-IsQuiet)

  pub apply_channel_patch-IsQuiet :
      (ctx : Option Error) (user_id workspace_id : String) (patch : ChannelPatch) (c : Channel)
      → IsQuiet {W = W} (apply_channel_patch ctx user_id workspace_id patch c)
  unfolding apply_channel_patch
  apply_channel_patch-IsQuiet ctx user_id workspace_id patch c =
      search (plain_rules, resolve_parent-IsQuiet)
