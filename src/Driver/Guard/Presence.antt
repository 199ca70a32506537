-- ===== src/Driver/Guard/Presence.antt =====
-- src/kernel_target.rs: the checks in front of a start of the driver leave the module and the overlay
-- as they were.
use raspberry_pi_i2c_target.Prelude.{
  ℕ, Bool, false, ◌≡◌, refl, arith, ap, ◌∙◌, Option, none, some, List, [], ◌∷◌, ok, >?-keeps,
  Bool-cases, inl, inr, ltb,
}
use raspberry_pi_i2c_target.Text.{String, ◌<>◌, contains_text}
use raspberry_pi_i2c_target.Driver.Settings.{module_name}
use raspberry_pi_i2c_target.Driver.System.{System}
use raspberry_pi_i2c_target.Driver.Kernel.{Kernel}
use raspberry_pi_i2c_target.Driver.Commands.{
  join, command_output, active_overlays, newer_than, newer_source, compare_sources,
  ensure_artifacts_current, find_project, infer_kernel_directory, behind_first,
}
use raspberry_pi_i2c_target.Driver.Guard.{DriverConfiguration, detect, ensure_unloaded}

-- Whether the module and the overlay are there.
abbrev pub presence : (sys : System) (m o : String) → Kernel sys m o → sys.World → Bool × ℕ
presence sys m o k w = (k.loaded w, k.applied w)

-- To read files and to list the overlays changes neither, and the board is the one whose overlay is
-- `o`.
pub record Bystanders (sys : System) (o : String) (k : Kernel sys module_name o) : Type 0 where
  pub listing_keeps :
      (w : sys.World)
      → presence sys module_name o k (sys.execute "dtoverlay" ("-l" ∷ []) w).1
        ≡ presence sys module_name o k w
  pub is_file_keeps :
      (path : String) (w : sys.World)
      → presence sys module_name o k (sys.is_file path w).1 ≡ presence sys module_name o k w
  pub modified_keeps :
      (path : String) (w : sys.World)
      → presence sys module_name o k (sys.modified path w).1 ≡ presence sys module_name o k w
  pub read_keeps :
      (path : String) (w : sys.World)
      → presence sys module_name o k (sys.read_text path w).1 ≡ presence sys module_name o k w
  pub canonicalize_keeps :
      (path : String) (w : sys.World)
      → presence sys module_name o k (sys.canonicalize path w).1 ≡ presence sys module_name o k w
  pub exe_keeps :
      (w : sys.World)
      → presence sys module_name o k (sys.current_exe w).1 ≡ presence sys module_name o k w
  pub is_dir_keeps :
      (path : String) (w : sys.World)
      → presence sys module_name o k (sys.is_dir path w).1 ≡ presence sys module_name o k w
  pub board : (c : DriverConfiguration) (w : sys.World) → (detect sys w).0 ≡ ok c → c.overlay ≡ o

module _ (sys : System) (o : String) (k : Kernel sys module_name o) (b : Bystanders sys o k) where
  abbrev pub seen : sys.World → Bool × ℕ
  seen = presence sys module_name o k

  active_overlays-keeps : (w : sys.World) → seen (active_overlays sys w).1 ≡ seen w
  unfolding active_overlays command_output
  active_overlays-keeps w = ground (arith, b.listing_keeps w)

  exists-keeps : (path : String) (w : sys.World) → seen (sys.exists path w).1 ≡ seen w
  exists-keeps path w = ground (arith, k.exists_keeps path w)

  pub ensure_unloaded-keeps :
      (c : DriverConfiguration) (w : sys.World) → seen (ensure_unloaded sys c w).1 ≡ seen w
  unfolding ensure_unloaded
  ensure_unloaded-keeps c w =
      let w1 = (sys.exists c.device w).1 in
      let path = join "/sys/module" c.module_file in
      let w2 = (sys.exists path w1).1 in
      let first = exists-keeps c.device w in
      let both = exists-keeps path w1 ∙ first in
      elim (Bool-cases (sys.exists c.device w).0) [
        | inl device ↦ rw device first
        | inr no_device ↦ elim (Bool-cases (sys.exists path w1).0) [
          | inl loaded ↦ rw (no_device, loaded) both
          | inr none_loaded ↦
              rw (no_device, none_loaded)
                (>?-keeps seen (seen w) (active_overlays sys w2) _ (active_overlays-keeps w2 ∙ both)
                  (λ _ v e. e))
        ]
      ]

  newer_than-keeps :
      (time : ℕ) (sources : List String) (w : sys.World)
      → seen (newer_than sys time sources w).1 ≡ seen w
  unfolding newer_than
  newer_than-keeps time [] w = refl
  newer_than-keeps time (source ∷ sources) w =
      let w1 = (sys.is_file source w).1 in
      let there = b.is_file_keeps source w in
      elim (Bool-cases (sys.is_file source w).0) [
        | inr absent ↦ rw absent (newer_than-keeps time sources w1 ∙ there)
        | inl present ↦ rw present (
            >?-keeps seen (seen w) (sys.modified source w1) _ (b.modified_keeps source w1 ∙ there)
              λ modified v e. elim (Bool-cases (ltb time modified)) [
                | inl newer ↦ rw newer e
                | inr older ↦ rw older (newer_than-keeps time sources v ∙ e)
              ])
      ]

  newer_source-keeps :
      (output : String) (sources : List String) (w : sys.World)
      → seen (newer_source sys output sources w).1 ≡ seen w
  unfolding newer_source
  newer_source-keeps output sources w =
      >?-keeps seen (seen w) (sys.modified output w) _ (b.modified_keeps output w)
        (λ time v e. newer_than-keeps time sources v ∙ e)

  compare_sources-keeps :
      (directory module_file overlay : String) (w : sys.World)
      → seen (compare_sources sys directory module_file overlay w).1 ≡ seen w
  unfolding compare_sources
  compare_sources-keeps directory module_file overlay w =
      >?-keeps seen (seen w) (newer_source sys _ _ w) _ (newer_source-keeps _ _ w) (λ _ v e.
        >?-keeps seen (seen w) (newer_source sys _ _ v) _ (newer_source-keeps _ _ v ∙ e)
          (λ _ u f. f))

  pub ensure_artifacts_current-keeps :
      (directory module_file overlay : String) (w : sys.World)
      → seen (ensure_artifacts_current sys directory module_file overlay w).1 ≡ seen w
  unfolding ensure_artifacts_current
  ensure_artifacts_current-keeps directory module_file overlay w =
      let path = join directory (module_file <> ".ko") in
      let other = join directory (overlay <> ".dtbo") in
      let w1 = (sys.is_file path w).1 in
      let w2 = (sys.is_file other w1).1 in
      let first = b.is_file_keeps path w in
      let both = b.is_file_keeps other w1 ∙ first in
      elim (Bool-cases (sys.is_file path w).0) [
        | inr absent ↦ rw absent first
        | inl module_there ↦ elim (Bool-cases (sys.is_file other w1).0) [
          | inr absent ↦ rw (module_there, absent) both
          | inl overlay_there ↦
              rw (module_there, overlay_there)
                (compare_sources-keeps directory module_file overlay w2 ∙ both)
        ]
      ]

  find_project-keeps :
      (directories : List String) (w : sys.World) → seen (find_project sys directories w).1 ≡ seen w
  unfolding find_project
  find_project-keeps [] w = refl
  find_project-keeps (directory ∷ rest) w =
      let w1 = (sys.is_file (join directory "Cargo.toml") w).1 in
      let w2 = (sys.is_dir (join directory "kernel") w1).1 in
      ground (
        arith,
        b.is_file_keeps (join directory "Cargo.toml") w,
        b.is_dir_keeps (join directory "kernel") w1,
        find_project-keeps rest w1,
        find_project-keeps rest w2,
      )

  pub infer_kernel_directory-keeps :
      (directory : Option String) (w : sys.World)
      → seen (infer_kernel_directory sys directory w).1 ≡ seen w
  unfolding infer_kernel_directory
  infer_kernel_directory-keeps (some value) w = b.canonicalize_keeps value w
  infer_kernel_directory-keeps none w =
      >?-keeps seen (seen w) (sys.current_exe w) _ (b.exe_keeps w) λ executable v e.
        let ancestors = behind_first sys (sys.ancestors executable) in
        >?-keeps seen (seen w) (find_project sys ancestors v) _ (find_project-keeps ancestors v ∙ e)
          (λ _ u f. f)

  pub detect-keeps : (w : sys.World) → seen (detect sys w).1 ≡ seen w
  unfolding detect
  detect-keeps w =
      let run = sys.read_text "/proc/device-tree/model" w in
      >?-keeps seen (seen w) run _ (b.read_keeps "/proc/device-tree/model" w) λ model v e.
        elim (Bool-cases (contains_text model "Raspberry Pi 3 Model B")) [
          | inl third ↦ rw third e
          | inr other ↦ elim (Bool-cases (contains_text model "Raspberry Pi 4 Model B")) [
            | inl fourth ↦ rw (other, fourth) e
            | inr none_there ↦ rw (other, none_there) e
          ]
        ]

  pub both_absent : (w : sys.World) → seen w ≡ (false, 0) → (k.loaded w ≡ false) × (k.applied w ≡ 0)
  both_absent w clean = (ap (λ p. p.0) clean, ap (λ p. p.1) clean)

  pub absent_both : (w : sys.World) → k.loaded w ≡ false → k.applied w ≡ 0 → seen w ≡ (false, 0)
  absent_both w unloaded bare = cc
