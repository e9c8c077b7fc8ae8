-- ===== src/Config/Clouds.antt =====
-- internal/config/clouds.go: the clouds that a PC pushes to. The file is a parameter: what it holds where
-- it is read and parsed, and none otherwise.
pub mod Append
use claude_master_go.Base.{
  Bool, true, false, ◌||◌, Option, none, some, List, [], ◌∷◌, ◌++◌, if◌then◌else◌, Bytes, equal,
  is_empty,
}
use claude_master_go.Config.Values.{Config}
use claude_master_go.Config.Load.{or_default}

pub record Cloud : Type 0 where
  pub project : Bytes
  pub relay_url : Bytes
  pub sa_key_path : Bytes
  pub pc_name : Bytes

module _ (cfg : Config) where
  -- The entries that are complete, with the name of the PC where they have none.
  unfoldable pub complete : List Cloud → List Cloud
  complete [] = []
  complete (cl ∷ cs) =
      let rest = complete cs in
      if is_empty cl.project || is_empty cl.relay_url
      then rest
      else record cl { pc_name = or_default cl.pc_name cfg.pc_id } ∷ rest

  -- The single cloud of the settings.
  unfoldable pub single_cloud : Bytes → List Cloud
  single_cloud sa_key =
      if is_empty cfg.gcp_project
      then []
      else record {
        project = cfg.gcp_project;
        relay_url = cfg.cloud_relay_url;
        sa_key_path = sa_key;
        pc_name = cfg.pc_id;
      }
        ∷ []

  unfoldable pub clouds_or : List Cloud → List Cloud → List Cloud
  clouds_or [] single = single
  clouds_or (cl ∷ cs) single = cl ∷ cs

  unfoldable pub clouds_of : Option (List Cloud) → List Cloud
  clouds_of none = []
  clouds_of (some cs) = complete cs

  -- `LoadClouds`, with the key of `defaultSAKeyPath`.
  abbrev pub load_clouds : Option (List Cloud) → Bytes → List Cloud
  load_clouds file sa_key = clouds_or (clouds_of file) (single_cloud sa_key)

-- `defaultSAKeyPath`: the environment, else the file in the home directory, where there are both.
unfoldable pub sa_key_in : Option Bytes → (Bytes → Bool) → Bytes
sa_key_in none stat = []
sa_key_in (some path) stat = if stat path then path else []

unfoldable pub default_sa_key_path : Bytes → Option Bytes → (Bytes → Bool) → Bytes
default_sa_key_path env home_path stat = or_default env (sa_key_in home_path stat)

-- The loop of `AppendCloud`: the merged list, and whether an entry was replaced.
unfoldable pub merge_cloud : Cloud → List Cloud → List Cloud × Bool
merge_cloud add [] = ([], false)
merge_cloud add (cl ∷ cs) =
    let rest = merge_cloud add cs in
    if equal cl.project add.project then (add ∷ rest.0, true) else (cl ∷ rest.0, rest.1)

unfoldable pub merged : Cloud → List Cloud × Bool → List Cloud
merged add (cs, true) = cs
merged add (cs, false) = cs ++ add ∷ []

unfoldable pub seeded : List Cloud → List Cloud → List Cloud
seeded [] existing = existing
seeded (cl ∷ cs) existing = cl ∷ cs

-- The list that `AppendCloud` writes, from the one that the file holds, empty where it is not read.
abbrev pub append_cloud : Cloud → List Cloud → List Cloud → List Cloud
append_cloud add existing file = merged add (merge_cloud add (seeded file existing))
