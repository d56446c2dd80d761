-- ===== src/Collaboration/Config.antt =====
-- internal/collaboration/channels.go: a channel's configuration lies over its parent's.
use runspace.Prelude.{◌≡◌, refl, String, Option, none, some, arith, or_else}
use runspace.Dict
use runspace.Dict.{Dict, get-empty, get-put_all}
use runspace.Collaboration.Model.{Channel}

unfoldable pub clone_config : Dict String → Dict String
clone_config input = Dict.put_all Dict.empty input

unfoldable pub merge_config : Dict String → Dict String → Dict String
unfolding clone_config
merge_config parent child = Dict.put_all (clone_config parent) child

unfoldable pub updated_channel_config : Option Channel → Dict String → Dict String
unfolding merge_config clone_config
updated_channel_config none patch = clone_config patch
updated_channel_config (some parent) patch = merge_config parent.config patch

-- `cloneConfig(config)`, and over the parent's where there is one.
unfoldable pub created_channel_config : Option Channel → Dict String → Dict String
unfolding merge_config clone_config
created_channel_config none config = clone_config config
created_channel_config (some parent) config = merge_config parent.config (clone_config config)

pub get-clone_config :
    (config : Dict String) (k : String) → Dict.get (clone_config config) k ≡ Dict.get config k
unfolding clone_config
get-clone_config config k = rw (get-put_all, get-empty) ground arith

pub get-merge_config :
    (parent child : Dict String) (k : String)
    → Dict.get (merge_config parent child) k ≡ or_else (Dict.get child k) (Dict.get parent k)
unfolding merge_config
get-merge_config parent child k = rw (get-put_all, get-clone_config) refl

abbrev pub inherited_value : Option Channel → String → Option String
inherited_value none k = none
inherited_value (some parent) k = Dict.get parent.config k

-- What a setting is in a new channel: the request's, or else the parent's.
pub get-created_channel_config :
    (parent : Option Channel) (config : Dict String) (k : String)
    → Dict.get (created_channel_config parent config) k
      ≡ or_else (Dict.get config k) (inherited_value parent k)
unfolding created_channel_config
get-created_channel_config none config k = rw get-clone_config ground arith
get-created_channel_config (some parent) config k = rw (get-merge_config, get-clone_config) refl

-- In an updated channel: the patch's, or else the parent's, and never the channel's own.
pub get-updated_channel_config :
    (parent : Option Channel) (patch : Dict String) (k : String)
    → Dict.get (updated_channel_config parent patch) k
      ≡ or_else (Dict.get patch k) (inherited_value parent k)
unfolding updated_channel_config
get-updated_channel_config none patch k = rw get-clone_config ground arith
get-updated_channel_config (some parent) patch k = get-merge_config parent.config patch k
