-- ===== src/Traefik/Files.antt =====
-- Manager.apply of internal/traefik/traefik.go: the files of the configuration directory, while every
-- call to the operating system may fail. The staging directory and the subdirectories, which
-- apply leaves alone, are left out, and the file that a write may leave in the former with them.
use firework.Base.{
  ℕ, String, Bool, true, false, ◌||◌, ◌&&◌, not, if◌then◌else◌, Option, none, some, List, [], ◌∷◌,
  is_some, map, str_lt,
}
use firework.Base.Dict.{Dict, lookup, insert, remove}
use firework.Base.Sort.{sort_stable}
use text.Mathlib.Text.{starts_with}
use firework.Base.Decimal.{has_suffix}
use firework.Config.{ServiceConfig, NodeConfig}
use firework.Traefik.{remote_file_prefix, Rendering, nothing_rendered, render_local, render}
pub mod Outcome

-- Which calls fail. Each file is written, renamed and removed at most once.
pub record Faults : Type 0 where
  pub mkdir_fails : Bool
  pub stage_dir_fails : Bool
  pub write_fails : String → Bool
  pub rename_fails : String → Bool
  pub read_fails : Bool
  pub remove_fails : String → Bool

-- Whether all of the names are staged.
unfoldable pub stage : (String → Bool) → List String → Bool
stage fails [] = true
stage fails (name ∷ names) = if fails name then false else stage fails names

module _ {C : Type 0} where
  abbrev pub keys : Dict C → List String
  keys files = map (λ p. p.0) files

  abbrev pub put : String → Option C → Dict C → Dict C
  put name none files = files
  put name (some content) files = insert name content files

  -- Each staged file is renamed over the one that is in force.
  unfoldable pub rename_all : (String → Bool) → Dict C → List String → Dict C → Dict C × Bool
  rename_all fails desired [] files = (files, true)
  rename_all fails desired (name ∷ names) files =
      if fails name
      then (files, false)
      else rename_all fails desired names (put name (lookup name desired) files)

  -- Whether a file that stands is to be removed.
  unfoldable pub is_stale : Dict C → Bool → String → Bool
  is_stale desired preserve_remotes name =
      has_suffix name ".yaml"
      && not (is_some (lookup name desired))
      && not (preserve_remotes && starts_with name remote_file_prefix)

  unfoldable pub remove_stale :
      (String → Bool) → Dict C → Bool → List String → Dict C → Dict C × Bool
  remove_stale fails desired preserve_remotes [] files = (files, true)
  remove_stale fails desired preserve_remotes (name ∷ names) files =
      if not (is_stale desired preserve_remotes name)
      then remove_stale fails desired preserve_remotes names files
      else if fails name
      then (files, false)
      else remove_stale fails desired preserve_remotes names (remove name files)

  -- What is done after the renaming, when it succeeds.
  abbrev pub clean : Faults → Dict C → Bool → Dict C × Bool → Dict C × Bool
  clean faults desired preserve_remotes (files, false) = (files, false)
  clean faults desired preserve_remotes (files, true) =
      if faults.read_fails
      then (files, false)
      else remove_stale faults.remove_fails desired preserve_remotes (keys files) files

  unfoldable pub apply_files : Faults → Dict C → Bool → Dict C → Dict C × Bool
  apply_files faults desired preserve_remotes files =
      let names = sort_stable str_lt (keys desired) in
      if faults.mkdir_fails
      then (files, false)
      else if faults.stage_dir_fails
      then (files, false)
      else if not (stage faults.write_fails names)
      then (files, false)
      else clean faults desired preserve_remotes
          (rename_all faults.rename_fails desired names files)

-- What a rendering that may have failed does to the files.
unfoldable pub synced : {C : Type 0} → Faults → Bool → Option (Rendering C) → Dict C → Dict C × Bool
unfolding apply_files
synced faults preserve_remotes none files = (files, false)
synced faults preserve_remotes (some r) files = apply_files faults r.desired preserve_remotes files

module _ {C : Type 0} (to_lower : String → String)
    (marshal : String → String → String → ℕ → Option C)
    (sort_nodes : List NodeConfig → List NodeConfig)
    (sort_services : List ServiceConfig → List ServiceConfig) (ingress_domain : String) where
  unfoldable pub sync : Faults → List ServiceConfig → List NodeConfig → Dict C → Dict C × Bool
  unfolding synced
  sync faults services remote_nodes files =
      synced faults false
        (render to_lower marshal sort_nodes sort_services ingress_domain services remote_nodes)
        files

  -- SyncLocal, which keeps the files of remote routes.
  unfoldable pub sync_local : Faults → List ServiceConfig → Dict C → Dict C × Bool
  unfolding synced
  sync_local faults services files =
      synced faults true
        (render_local to_lower marshal sort_nodes sort_services ingress_domain services
          nothing_rendered)
        files
