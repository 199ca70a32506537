-- ===== src/Driver/Commands.antt =====
-- src/kernel_target.rs: the checks and the commands that the guard is made of.
use raspberry_pi_i2c_target.Prelude.{
  ℕ, Bool, false, not, ◌||◌, Option, none, some, List, [], ◌∷◌, ltb, if◌then◌else◌, ◌==◌, Outcome,
  ok, err, ErrorKind, Error, ◌>?◌, ◌>!◌, map_error,
}
use raspberry_pi_i2c_target.Text.{String, ◌<>◌, equals, words}
use raspberry_pi_i2c_target.Driver.System.{System, Output}

abbrev pub fails : {A : Type 0} → ErrorKind → String → Outcome A
fails kind message = err (record { kind = kind; message = message })

-- `directory.join(name)`, for a directory that does not end in a slash
abbrev pub join : String → String → String
join directory name = directory <> "/" <> name

-- The loop of `overlay_is_active`.
unfoldable pub any_equals : List String → String → Bool
any_equals [] overlay = false
any_equals (word ∷ rest) overlay = equals word overlay || any_equals rest overlay

unfoldable pub overlay_is_active : String → String → Bool
overlay_is_active list overlay = any_equals (words list) overlay

module _ (sys : System) where
  unfoldable pub require_root : sys.World → Outcome {0} Unit × sys.World
  require_root w = sys.geteuid w >! λ euid w. if euid == 0 then (ok tt, w) else (
    fails ErrorKind.permission_denied
        "run with sudo so the app can load and unload the kernel driver",
    w,
  )

  -- The error of `command_output`.
  abbrev cannot_execute : String → Error → Error
  cannot_execute program error = record error {
    message = "cannot execute " <> program <> ": " <> error.message;
  }

  unfoldable pub command_output : String → List String → sys.World → Outcome Output × sys.World
  command_output program arguments w =
      map_error (cannot_execute program) (sys.execute program arguments w)

  -- The lines of `run_command` behind the call.
  abbrev command_result : String → Output → Outcome {0} Unit
  command_result program output =
      if output.success
      then ok tt
      else fails ErrorKind.other
          (program <> " failed with " <> output.status <> ": " <> sys.trim output.stderr)

  unfoldable pub run_command : String → List String → sys.World → Outcome {0} Unit × sys.World
  run_command program arguments w =
      command_output program arguments w >? λ output w. (command_result program output, w)

  unfoldable pub active_overlays : sys.World → Outcome String × sys.World
  active_overlays w = command_output "dtoverlay" ("-l" ∷ []) w >? λ output w.
      if not output.success
      then (fails ErrorKind.other "cannot list active device-tree overlays", w)
      else (ok output.stdout, w)

  -- The loop of `newer_source`; the source's two tests are one `&&`, the second made behind the first.
  unfoldable pub newer_than : ℕ → List String → sys.World → Outcome (Option String) × sys.World
  newer_than output_time [] w = (ok none, w)
  newer_than output_time (source ∷ sources) w = sys.is_file source w >! λ is_file w.
      if not is_file
      then newer_than output_time sources w
      else sys.modified source w >? λ time w.
          if ltb output_time time then (ok (some source), w) else newer_than output_time sources w

  unfoldable pub newer_source :
      String → List String → sys.World → Outcome (Option String) × sys.World
  newer_source output sources w =
      sys.modified output w >? λ output_time w. newer_than output_time sources w

  -- The test of `stale_source`.
  abbrev pub artifacts_result : String → Option String → Option String → Outcome {0} Unit
  artifacts_result directory none none = ok tt
  artifacts_result directory none (some source) = fails ErrorKind.other (
      "driver artifact is older than " <> source <> "; run `make -C " <> directory
      <> "` before starting the target")
  artifacts_result directory (some source) other = fails ErrorKind.other (
      "driver artifact is older than " <> source <> "; run `make -C " <> directory
      <> "` before starting the target")

  -- The artifacts are there: `ensure_artifacts_current` behind its first test.
  unfoldable pub compare_sources :
      String → String → String → sys.World → Outcome {0} Unit × sys.World
  compare_sources directory module_name overlay_name w =
      newer_source (join directory (module_name <> ".ko"))
        (join directory (module_name <> ".c")
          ∷ join directory "bsc_target_uapi.h"
          ∷ join directory "Makefile"
          ∷ [])
        w
      >? λ stale w.
          newer_source (join directory (overlay_name <> ".dtbo"))
            (join directory (overlay_name <> "-overlay.dts") ∷ join directory "Makefile" ∷ []) w
          >? λ other w. (artifacts_result directory stale other, w)

  abbrev missing : String → Outcome {0} Unit
  missing directory = fails ErrorKind.not_found (
      "driver artifacts are missing in " <> directory <> "; run `make -C " <> directory
      <> "` first")

  unfoldable pub ensure_artifacts_current :
      String → String → String → sys.World → Outcome {0} Unit × sys.World
  ensure_artifacts_current directory module_name overlay_name w =
      sys.is_file (join directory (module_name <> ".ko")) w >! λ has_module w.
      if not has_module
      then (missing directory, w)
      else sys.is_file (join directory (overlay_name <> ".dtbo")) w >! λ has_overlay w.
          if not has_overlay
          then (missing directory, w)
          else compare_sources directory module_name overlay_name w

  -- The `find` of `project_root`, in the ancestors behind the first.
  unfoldable pub find_project : List String → sys.World → Outcome String × sys.World
  find_project [] w = (fails ErrorKind.not_found "cannot locate project root", w)
  find_project (directory ∷ rest) w =
      sys.is_file (join directory "Cargo.toml") w >! λ has_manifest w.
      if not has_manifest
      then find_project rest w
      else sys.is_dir (join directory "kernel") w >! λ has_kernel w.
          if has_kernel then (ok directory, w) else find_project rest w

  abbrev pub behind_first : List String → List String
  behind_first [] = []
  behind_first (first ∷ rest) = rest

  unfoldable pub infer_kernel_directory : Option String → sys.World → Outcome String × sys.World
  infer_kernel_directory (some value) w = sys.canonicalize value w
  infer_kernel_directory none w = sys.current_exe w >? λ executable w.
      find_project (behind_first (sys.ancestors executable)) w >? λ project w.
      (ok (join project "kernel"), w)
