-- ===== src/Secrets/Tests.antt =====
-- Concrete runs of the secrets service.
mod Plain
use runspace.Prelude.{
  ℕ, suc, ◌+◌, ◌<◌, ◌≡◌, ◌⊎◌, inl, inr, refl, String, Bool, true, false, not, ◌&&◌, ◌||◌, Option,
  none, some, List, [], ◌∷◌, is_some, ◌==◌, if◌then◌else◌, arith, ap, length, zero, sym,
}
use runspace.Text.{trim_space}
use runspace.Dict
use runspace.Dict.{Dict, get-put, get-empty}
use runspace.Errors.{Result, ok, err, secrets_not_found}
use runspace.Collaboration.Model
use runspace.Collaboration.Model.{Channel, MemoryService, new_memory_service}
use runspace.Secrets.Model.{
  ChannelResolver, Authorizer, Aead, Crypto, Sealed, Service, secrets_of, new, open_secret,
  open_with, seal,
}
use runspace.Secrets.{authorize, set, delete, resolve, seal}
use runspace.Secrets.Climbing.{Descends, IsTree, IsReady, resolve_ends}
use runspace.Secrets.InCollaboration.{
  IsRanked, resolver_of, authorizer_of, resolve_in_collaboration,
}
use runspace.Secrets.Sealing.{IsCipher, resolve-set}
use runspace.Secrets.Deleting.{deleted_in, delete_lem}
use Plain.{plain, plain-opens}

abbrev channel : Channel
channel = record {
  id = "c";
  workspace_id = "w";
  name = "general";
  parent_id = "";
  repository_id = "";
  repository_ids = [];
  config = Dict.empty;
  created_by = "u";
  created_at = 0;
}

abbrev zeros : ℕ → List ℕ
zeros zero = []
zeros (suc n) = 0 ∷ zeros n

zeros-length : (n : ℕ) → length (zeros n) ≡ n
zeros-length zero = refl
zeros-length (suc n) = ap suc (zeros-length n)

abbrev crypto : {W : Type 0} → Crypto W
crypto = record { new_gcm = λ key. ok plain; random = λ n w. (ok (zeros n), w) }

crypto-IsCipher : {W : Type 0} → IsCipher {W = W} crypto plain
crypto-IsCipher = record {
  opens = plain-opens;
  sized =
      λ n nonce w w' h. let e : zeros n ≡ nonce = cc (ap (λ p. p.0) h) in rw (← e) (zeros-length n);
}

abbrev service : Service ℕ
service = record {
  channels = record { get_channel = λ user id w. (ok channel, w) };
  auth = record { can_read = λ ws user w. (ok tt, w); can_write = λ ws user w. (ok tt, w) };
  key = [];
  clock = λ w. (w, w);
  values = Dict.empty;
  durable = none;
  world = 0;
}

abbrev after_set : Service ℕ
after_set = (set crypto "u" "c" " token " "s3cret" service).1

resolve-set_example : resolve crypto 1 "u" "c" " token " after_set ≡ some (ok "s3cret", after_set)
unfolding set authorize seal Dict.put trim_space
resolve-set_example =
    resolve-set crypto plain crypto-IsCipher 0 "u" "u" "c" " token " "s3cret" service service
      after_set after_set channel channel refl refl refl refl refl

delete_lem_example :
    let (r, t) = delete "u" "c" "token" service in
    let known = is_some (Dict.get (secrets_of "c" service) (trim_space "token")) in
    (r ≡ (
      if known || deleted_in {W = ℕ} none "c" (trim_space "token") 0
      then ok tt
      else err secrets_not_found))
    × ((j n : String)
        → Dict.get (secrets_of j t) n ≡ (
            if ("c" == j) && (trim_space "token" == n)
            then none
            else Dict.get (secrets_of j service) n))
unfolding authorize
delete_lem_example = delete_lem "u" "c" "token" service service channel refl

abbrev flat : String → ℕ
flat id = 0

abbrev lenient : Model.Authorizer ℕ
lenient = record { can_read = λ ws user w. (ok tt, w); can_write = λ ws user w. (ok tt, w) }

abbrev chat : MemoryService ℕ
chat = new_memory_service (λ w. (w, w)) (λ w. (w, w)) (some lenient) 0

abbrev chat_secrets : Service (MemoryService ℕ)
chat_secrets = record {
  channels = resolver_of none;
  auth = authorizer_of none lenient;
  key = [];
  clock = λ w. (0, w);
  values = Dict.empty;
  durable = none;
  world = chat;
}

resolve_in_collaboration_example :
    (r : Result String) × (t : Service (MemoryService ℕ)) × (resolve crypto 1 "u" "c" "token"
        chat_secrets
      ≡ some (r, t))
resolve_in_collaboration_example =
    resolve_in_collaboration none flat lenient crypto 1 "u" "c" "token" chat_secrets
      (record { alone = refl; below = λ id c h. absurd (nothing id c h) }) refl refl refl
      (omega arith)
  where
    nothing : (id : String) (c : Channel) → Dict.get Dict.empty id ≡ some c → ⊥
    nothing id c h = cc (get-empty id, h)
