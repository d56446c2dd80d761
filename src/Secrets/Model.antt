-- ===== src/Secrets/Model.antt =====
-- internal/secrets/service.go: the data, the state of the service, and what it calls. `W` is the state
-- of all that lies outside. crypto/aes, crypto/cipher and crypto/rand are parameters.
use runspace.Prelude.{
  ℕ, String, Bool, Option, none, some, List, ◌++◌, length, take, drop, ltb, eqb, not, if◌then◌else◌,
}
use runspace.Dict
use runspace.Dict.{Dict}
use runspace.Errors.{Result, ok, err, message, secrets_invalid}
use runspace.Exec.{Exec, pure, lift, gets, ◌>>=◌}
use runspace.Collaboration.Model.{Channel}

-- What the service needs of the channels; the collaboration service is one such.
pub record ChannelResolver (W : Type 0) : Type 0 where
  pub get_channel : String → String → Exec W Channel

pub record Authorizer (W : Type 0) : Type 0 where
  pub can_read : String → String → Exec W (Unit {0})
  pub can_write : String → String → Exec W (Unit {0})

pub record Metadata : Type 0 where
  pub name : String
  pub updated_at : ℕ
  pub source_channel_id : String
  pub inherited : Bool

pub record EncryptedMetadata : Type 0 where
  pub name : String
  pub updated_at : ℕ

pub record DurableStore (W : Type 0) : Type 0 where
  pub set_encrypted : String → String → List ℕ → ℕ → Exec W (Unit {0})
  pub list_encrypted : String → Exec W (List EncryptedMetadata)
  pub resolve_encrypted : String → String → Exec W (List ℕ)
  pub delete_encrypted : String → String → Exec W (Unit {0})

-- The entry of the map `values`: what is sealed, as bytes.
pub record Sealed : Type 0 where
  pub sealed : List ℕ
  pub updated : ℕ

-- cipher.AEAD, between texts and bytes.
pub record Aead : Type 0 where
  pub nonce_size : ℕ
  pub seal : List ℕ → String → List ℕ
  pub open_sealed : List ℕ → List ℕ → Result String

-- aes.NewCipher and cipher.NewGCM of a key, and rand.Read of so many bytes.
pub record Crypto (W : Type 0) : Type 0 where
  pub new_gcm : List ℕ → Result Aead
  pub random : ℕ → Exec W (List ℕ)

pub record Service (W : Type 0) : Type 0 where
  pub channels : ChannelResolver W
  pub auth : Authorizer W
  pub key : List ℕ
  pub clock : W → ℕ × W
  pub values : Dict (Dict Sealed)
  pub durable : Option (DurableStore W)
  pub world : W

-- A missing key reads as the nil map.
abbrev pub or_no_secrets : Option (Dict Sealed) → Dict Sealed
or_no_secrets none = Dict.empty
or_no_secrets (some d) = d

module _ {W : Type 0} where
  -- s.values[channelID]
  abbrev pub secrets_of : String → Service W → Dict Sealed
  secrets_of channel_id s = or_no_secrets (Dict.get s.values channel_id)

  -- A call of something outside, and one whose error is a value.
  abbrev pub call : {A : Type 0} → Exec W A → Exec (Service W) A
  call m s = let (r, w) = m s.world in (r, record s { world = w })

  abbrev pub try_call : {A : Type 0} → Exec W A → Exec (Service W) (Result A)
  try_call m s = let (r, w) = m s.world in (ok r, record s { world = w })

  abbrev pub read_clock : Exec (Service W) ℕ
  read_clock s = let (t, w) = s.clock s.world in (ok t, record s { world = w })

  abbrev pub set_persistence : Option (DurableStore W) → Service W → Service W
  set_persistence store s = record s { durable = store }

  unfoldable pub new :
      Option (ChannelResolver W)
      → Option (Authorizer W)
      → List ℕ
      → (W → ℕ × W)
      → W
      → Result (Service W)
  new none auth key clock world = err secrets_invalid
  new (some channels) none key clock world = err secrets_invalid
  new (some channels) (some auth) key clock world =
      if not (eqb (length key) 32)
      then err (message "secret key must be 32 bytes")
      else ok (record {
        channels = channels;
        auth = auth;
        key = key;
        clock = clock;
        values = Dict.empty;
        durable = none;
        world = world;
      })

module _ {W : Type 0} (crypto : Crypto W) where
  -- The nonce stands in front of what is sealed with it.
  unfoldable pub seal : String → Exec (Service W) (List ℕ)
  seal value = do
    key ← gets (λ s. s.key)
    gcm ← lift (crypto.new_gcm key)
    nonce ← call (crypto.random gcm.nonce_size)
    pure (nonce ++ gcm.seal nonce value)

  abbrev pub open_with : Aead → List ℕ → Result String
  open_with gcm sealed =
      if ltb (length sealed) gcm.nonce_size
      then err secrets_invalid
      else gcm.open_sealed (take gcm.nonce_size sealed) (drop gcm.nonce_size sealed)

  unfoldable pub open_secret : List ℕ → Exec (Service W) String
  open_secret sealed = do
    key ← gets (λ s. s.key)
    gcm ← lift (crypto.new_gcm key)
    lift (open_with gcm sealed)
