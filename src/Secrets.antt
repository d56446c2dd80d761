-- ===== src/Secrets.antt =====
-- internal/secrets/service.go: setting, listing, resolving and deleting a channel's secrets. A loop up
-- the parents takes fuel, one for each channel, and is `none` where that runs out; Secrets/Climbing
-- has how much is enough.
pub mod Model
pub mod Climbing
pub mod InCollaboration
pub mod Sealing
pub mod Deleting
mod Tests
use runspace.Prelude.{
  ℕ, zero, suc, String, Bool, true, false, not, ◌&&◌, ◌||◌, Option, none, some, List, [], ◌∷◌,
  is_empty, is_some, ◌==◌, if◌then◌else◌,
}
use runspace.Text.{trim_space}
use runspace.Dict
use runspace.Dict.{Dict, Entry}
use runspace.Errors.{Error, Result, ok, err, secrets_invalid, secrets_not_found}
use runspace.Exec.{Exec, pure, fail, lift, gets, modify, fail_if, ◌>>=◌, ◌>>◌}
use runspace.Collaboration.Model.{Channel}
use Model.{
  ChannelResolver, Authorizer, Metadata, EncryptedMetadata, DurableStore, Sealed, Crypto, Service,
  secrets_of, call, try_call, read_clock, seal, open_secret,
}

-- if _, exists := result[name]; !exists { result[name] = … }
abbrev pub add_metadata : Metadata → Dict Metadata → Dict Metadata
add_metadata m found = if is_some (Dict.get found m.name) then found else Dict.put found m.name m

add_durable : String → Bool → List EncryptedMetadata → Dict Metadata → Dict Metadata
add_durable channel_id inherited [] found = found
add_durable channel_id inherited (item ∷ items) found = add_durable channel_id inherited items (
    add_metadata
      (record {
        name = item.name;
        updated_at = item.updated_at;
        source_channel_id = channel_id;
        inherited = inherited;
      })
      found)

add_local : String → Bool → List (Entry Sealed) → Dict Metadata → Dict Metadata
add_local channel_id inherited [] found = found
add_local channel_id inherited (item ∷ items) found = add_local channel_id inherited items (
    add_metadata
      (record {
        name = item.key;
        updated_at = item.value.updated;
        source_channel_id = channel_id;
        inherited = inherited;
      })
      found)

-- What a failed listing holds.
abbrev pub listed_or_none : Result (List EncryptedMetadata) → List EncryptedMetadata
listed_or_none (ok items) = items
listed_or_none (err e) = []

abbrev pub answer : {A : Type 0} → Result A → Option A
answer (ok a) = some a
answer (err e) = none

-- delete(s.values[id], name), which does nothing on a nil map.
abbrev pub delete_value : String → String → Dict (Dict Sealed) → Dict (Dict Sealed)
delete_value id name values = elim (Dict.get values id) [
  | none ↦ values
  | some inner ↦ Dict.put values id (Dict.remove inner name)
]

module _ {W : Type 0} where
  allow : Bool → Authorizer W → String → String → Exec (Service W) (Unit {0})
  allow true auth workspace_id user_id = call (auth.can_write workspace_id user_id)
  allow false auth workspace_id user_id = call (auth.can_read workspace_id user_id)

  unfoldable pub authorize : String → String → Bool → Exec (Service W) Channel
  unfolding allow
  authorize user_id channel_id write = do
    channels ← gets (λ s. s.channels)
    channel ← call (channels.get_channel user_id channel_id)
    auth ← gets (λ s. s.auth)
    allow write auth channel.workspace_id user_id
    pure channel

  -- The parent of a channel; nil where there is none or it is not answered for.
  unfoldable pub parent : String → Channel → Service W → Option Channel × Service W
  parent user_id channel s =
      let (r, w) = s.channels.get_channel user_id channel.parent_id s.world in
      if is_empty channel.parent_id then (none, s) else (answer r, record s { world = w })

  unfoldable pub load_durable_metadata :
      String
      → Bool
      → Dict Metadata
      → Option (DurableStore W)
      → Service W
      → Dict Metadata × Service W
  unfolding add_durable
  load_durable_metadata channel_id inherited found none s = (found, s)
  load_durable_metadata channel_id inherited found (some durable) s =
      let (r, w) = durable.list_encrypted channel_id s.world in
      (add_durable channel_id inherited (listed_or_none r) found, record s { world = w })

  -- One round of the loop of `List`.
  unfoldable pub collect : String → Channel → Dict Metadata → Service W → Dict Metadata × Service W
  unfolding load_durable_metadata add_local
  collect channel_id current found s =
      let inherited = not (current.id == channel_id) in
      let (stored, t) = load_durable_metadata current.id inherited found s.durable s in
      (add_local current.id inherited (secrets_of current.id t).entries stored, t)

  -- for current := &channel; current != nil; current = s.parent(…)
  unfoldable pub list_from :
      ℕ
      → String
      → String
      → Option Channel
      → Dict Metadata
      → Service W
      → Option (Dict Metadata × Service W)
  list_from fuel user_id channel_id none found s = some (found, s)
  list_from zero user_id channel_id (some current) found s = none
  list_from (suc fuel) user_id channel_id (some current) found s =
      let (found', t) = collect channel_id current found s in
      let (next, u) = parent user_id current t in list_from fuel user_id channel_id next found' u

  abbrev listed_values :
      Option (Dict Metadata × Service W) → Option (Result (List Metadata) × Service W)
  listed_values none = none
  listed_values (some (found, s)) = some (ok (Dict.values found), s)

  abbrev list_authorized :
      ℕ → String → Result Channel → Service W → Option (Result (List Metadata) × Service W)
  list_authorized fuel user_id (err e) s = some (err e, s)
  list_authorized fuel user_id (ok channel) s =
      listed_values (list_from fuel user_id channel.id (some channel) Dict.empty s)

  unfoldable pub list :
      ℕ → String → String → Service W → Option (Result (List Metadata) × Service W)
  unfolding authorize list_from
  list fuel user_id channel_id s =
      let (r, t) = authorize user_id channel_id false s in list_authorized fuel user_id r t

  save_durable :
      String → String → List ℕ → ℕ → Option (DurableStore W) → Exec (Service W) (Unit {0})
  save_durable channel_id name sealed now none = pure tt
  save_durable channel_id name sealed now (some durable) =
      call (durable.set_encrypted channel_id name sealed now)

  -- The end of `Delete`.
  unfoldable pub delete_durable :
      String → String → Bool → Option (DurableStore W) → Exec (Service W) (Unit {0})
  delete_durable channel_id name found none = fail_if (not found) secrets_not_found
  delete_durable channel_id name found (some durable) = do
    deleted ← try_call (durable.delete_encrypted channel_id name)
    fail_if (not (is_some (answer deleted)) && not found) secrets_not_found

  unfoldable pub delete : String → String → String → Exec (Service W) (Unit {0})
  unfolding authorize delete_durable
  delete user_id channel_id name = do
    channel ← authorize user_id channel_id true
    found ← gets (λ s. is_some (Dict.get (secrets_of channel.id s) (trim_space name)))
    modify (λ s. record s { values = delete_value channel.id (trim_space name) s.values })
    durable ← gets (λ s. s.durable)
    delete_durable channel.id (trim_space name) found durable

-- A round of `Resolve` that found the secret, or failed, is the last one.
abbrev pub round_end :
    {W : Type 0}
    → Result (Option String)
    → Option (Result String × Service W)
    → Service W
    → Option (Result String × Service W)
round_end (err e) rest t = some (err e, t)
round_end (ok (some value)) rest t = some (ok value, t)
round_end (ok none) rest t = rest

module _ {W : Type 0} (crypto : Crypto W) where
  unfoldable pub set : String → String → String → String → Exec (Service W) (Unit {0})
  unfolding authorize save_durable
  set user_id channel_id name value = do
    channel ← authorize user_id channel_id true
    fail_if (is_empty (trim_space name) || is_empty value) secrets_invalid
    sealed ← seal crypto value
    now ← read_clock
    modify (λ s. record s {
      values = Dict.put s.values channel.id (
          Dict.put (secrets_of channel.id s) (trim_space name)
            (record { sealed = sealed; updated = now }));
    })
    durable ← gets (λ s. s.durable)
    save_durable channel.id (trim_space name) sealed now durable

  open_answer : Result (List ℕ) → Exec (Service W) (Option String)
  open_answer (ok sealed) = do value ← open_secret crypto sealed; pure (some value)
  open_answer (err e) = pure none

  resolve_durable : String → String → Option (DurableStore W) → Exec (Service W) (Option String)
  unfolding open_answer
  resolve_durable channel_id name none = pure none
  resolve_durable channel_id name (some durable) = do
    sealed ← try_call (durable.resolve_encrypted channel_id name)
    open_answer sealed

  resolve_local : String → String → Option Sealed → Exec (Service W) (Option String)
  unfolding resolve_durable
  resolve_local channel_id name none = do
    durable ← gets (λ s. s.durable)
    resolve_durable channel_id name durable
  resolve_local channel_id name (some item) = do
    value ← open_secret crypto item.sealed
    pure (some value)

  -- One round of the loop of `Resolve`: the secret, if this channel has it.
  unfoldable pub resolve_at : String → Channel → Exec (Service W) (Option String)
  unfolding resolve_local
  resolve_at name current = do
    item ← gets (λ s. Dict.get (secrets_of current.id s) name)
    resolve_local current.id name item

  -- for current := &channel; current != nil; current = s.parent(…)
  unfoldable pub resolve_from :
      ℕ → String → String → Option Channel → Service W → Option (Result String × Service W)
  resolve_from fuel user_id name none s = some (err secrets_not_found, s)
  resolve_from zero user_id name (some current) s = none
  resolve_from (suc fuel) user_id name (some current) s =
      let (r, t) = resolve_at name current s in
      let (next, u) = parent user_id current t in
      let rest = resolve_from fuel user_id name next u in round_end r rest t

  abbrev resolve_authorized :
      ℕ → String → String → Result Channel → Service W → Option (Result String × Service W)
  resolve_authorized fuel user_id name (err e) s = some (err e, s)
  resolve_authorized fuel user_id name (ok channel) s =
      if is_empty name
      then some (err secrets_invalid, s)
      else resolve_from fuel user_id name (some channel) s

  unfoldable pub resolve :
      ℕ → String → String → String → Service W → Option (Result String × Service W)
  unfolding authorize resolve_from
  resolve fuel user_id channel_id name s =
      let (r, t) = authorize user_id channel_id false s in
      resolve_authorized fuel user_id (trim_space name) r t
