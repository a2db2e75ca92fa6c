-- ===== src/UserSession/Plugins.antt =====
-- `Implementation::loadPlugins`: each directory below the plugins directory is a plugin.
use minide.Base.{Bool, true, false, List, [], ◌∷◌, ◌++◌, Bytes}

-- A std::exception with its `what()`, or another one.
pub data Failure : Type 0 where
  exception : Bytes → Failure
  non_standard : Failure

-- How a plugin starts: an exception of its constructor leaves no plugin behind, one of `run` or
-- `initialize` leaves it in the list.
pub data Start : Type 0 where
  started : Start
  not_constructed : Failure → Start
  not_run : Failure → Start

-- The plugins loaded, and the exception that ended the loop.
pub data Loaded : Type 0 where
  all_loaded : List Bytes → Loaded
  failed : List Bytes → Failure → Loaded

-- The rest of the directory's entries is read only where the plugin has started.
abbrev after_start : Bytes → List Bytes → Start → (List Bytes → Loaded) → Loaded
after_start name plugins started go = go (plugins ++ (name ∷ []))
after_start name plugins (not_constructed e) go = failed plugins e
after_start name plugins (not_run e) go = failed (plugins ++ (name ∷ [])) e

-- Over the entries of the directory, each with `is_directory`, and the plugins that are there.
unfoldable pub load_plugins : (Bytes → Start) → List (Bytes × Bool) → List Bytes → Loaded
load_plugins start [] plugins = all_loaded plugins
load_plugins start ((name, false) ∷ entries) plugins = load_plugins start entries plugins
load_plugins start ((name, true) ∷ entries) plugins =
    after_start name plugins (start name) (load_plugins start entries)
