-- ===== src/Collaboration/Tests.antt =====
-- Concrete runs of the collaboration service.
use runspace.Prelude.{
  ℕ, ◌+◌, ◌%◌, ◌≡◌, ◌⊎◌, ◌↔◌, refl, String, false, not, ◌&&◌, none, some, List, [], ◌∷◌, is_empty,
  some_of, ◌==◌,
}
use runspace.Text.{trim_space, is_blank}
use runspace.Dict
use runspace.Dict.{Dict}
use runspace.Errors.{ok}
use runspace.Samples.{any_json}
use runspace.Collaboration.Model.{
  Thread, Channel, ChannelPatch, Message, Authorizer, Codec, MemoryService, new_memory_service,
  next_id, next_seq,
}
use runspace.Collaboration.Threads.{create_thread}
use runspace.Collaboration.Messages.{create_message_as}
use runspace.Collaboration.Quiet.{IsSame}
use runspace.Collaboration.RepositoryIds.{normalize_repository_ids, seen_in}
use runspace.Collaboration.RepositoryIds.Normal.{AreNames, normalize_repository_ids_lem}
use runspace.Collaboration.Outcomes.Granting.{MayWrite}
use runspace.Collaboration.Outcomes.Threading.{Opened, create_thread-outcome}
use runspace.Collaboration.Outcomes.Writing.{GoesTo, Written, create_message-outcome}
use runspace.Collaboration.Ids.{next_id_iff}
use runspace.Collaboration.Calls.{
  Call, make_channel, open_thread, write_message, serve_all, Extends, serve_all-Extends,
}
use runspace.Collaboration.Invariant.{IsSound, serve_all-IsSound}

abbrev codec : Codec
codec = record {
  json_valid = any_json;
  thread_json = λ th. ok "{}";
  channel_json = λ c. ok "{}";
  message_json = λ m. ok "{}";
}

abbrev lenient : Authorizer ℕ
lenient = record { can_read = λ ws user w. (ok tt, w); can_write = λ ws user w. (ok tt, w) }

abbrev fresh : MemoryService ℕ
fresh = new_memory_service (λ w. (w, w)) (λ w. (w, w + 1)) (some lenient) 62135596800000000000

fresh-IsSound : IsSound fresh
unfolding Dict.get Dict.empty
fresh-IsSound = record {
  alone = refl;
  channels = λ id c h. absurd (cc);
  threads = λ id th h. absurd (cc);
}

abbrev calls : List Call
calls =
    make_channel "u" "ws_1" " general " "" (" repo " ∷ "repo" ∷ []) Dict.empty
    ∷ open_thread "u" "ws_1" "Plan" []
    ∷ write_message "u" "u" "ws_1" "thread_19700101000000_d" "user" "hello"
    ∷ []

serve_all-IsSound_example : IsSound (serve_all codec none calls fresh)
serve_all-IsSound_example = serve_all-IsSound codec none calls fresh fresh-IsSound

serve_all-Extends_example : Extends fresh (serve_all codec none calls fresh)
serve_all-Extends_example = serve_all-Extends codec none calls fresh

abbrev renaming : ChannelPatch
renaming = record {
  name = some "news";
  resource_id = none;
  resource_ids = none;
  repository_id = none;
  repository_ids = none;
  config = none;
}

abbrev general : Channel
general = record {
  id = "channel_a";
  workspace_id = "ws_1";
  name = "general";
  parent_id = "";
  repository_id = "";
  repository_ids = [];
  config = Dict.empty;
  created_by = "u";
  created_at = 5;
}

abbrev settled : MemoryService ℕ
settled = record fresh { channels = Dict.put Dict.empty "channel_a" general }

create_thread-outcome_example :
    let t = (create_thread none "u" "ws_1" codec "Plan" [] fresh).1 in
    IsSame fresh t
    ⊎ ((is_blank "Plan" ≡ false) × ((th : Thread) × Opened fresh "u" "ws_1" "Plan" th t))
create_thread-outcome_example = create_thread-outcome codec none "u" "ws_1" "Plan" [] fresh

create_message-outcome_example :
    let t = (create_message_as codec none "u" "u" "ws_1" "th" "user" "hello" fresh).1 in
    IsSame fresh t
    ⊎ ((is_blank "hello" ≡ false)
        × MayWrite fresh "ws_1" "u"
        × GoesTo fresh "ws_1" "th"
        × ((m : Message) × Written fresh "u" "th" "hello" m t))
create_message-outcome_example =
    create_message-outcome codec none "u" "u" "ws_1" "th" "user" "hello" fresh

next_id_iff_example :
    ((next_id "thread" fresh).0 ≡ (next_id "thread" (record fresh { seq = 26 })).0)
    ↔ (next_seq 0 % 26 ≡ next_seq 26 % 26)
next_id_iff_example = next_id_iff "thread" fresh (record fresh { seq = 26 }) refl

normalize_repository_ids_example :
    AreNames [] (normalize_repository_ids (" a " ∷ "" ∷ "a" ∷ []))
    × ((y : String)
        → seen_in (normalize_repository_ids (" a " ∷ "" ∷ "a" ∷ [])) y
          ≡ (not (is_empty y) && some_of (λ x. trim_space x == y) (" a " ∷ "" ∷ "a" ∷ [])))
normalize_repository_ids_example = normalize_repository_ids_lem (" a " ∷ "" ∷ "a" ∷ [])
