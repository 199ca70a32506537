-- ===== src/Driver/Kernel/Runs.antt =====
-- src/kernel_target.rs: what the commands that load and remove, run by `run_command`, leave in the
-- kernel.
use raspberry_pi_i2c_target.Prelude.{suc, ◌<◌, true, false, ◌≡◌, ◌≢◌, List, [], ◌∷◌, Outcome, ok}
use raspberry_pi_i2c_target.Text.{String, ◌<>◌}
use raspberry_pi_i2c_target.Driver.System.{System}
use raspberry_pi_i2c_target.Driver.Commands.{run_command, join}
use raspberry_pi_i2c_target.Driver.Kernel.{
  Kernel, RemovalWorks, run_command-world, run_command-succeeds, run_command-ok, run_command-fails,
}

module _ (sys : System) (m o : String) (k : Kernel sys m o) where
  module _ (name : String) (same : name ≡ o) (w : sys.World) where
    abbrev pub removed : Outcome {0} Unit × sys.World
    removed = run_command sys "dtoverlay" ("-r" ∷ name ∷ []) w

    pub removed-loaded : k.loaded removed.1 ≡ k.loaded w
    removed-loaded =
        rw (same, run_command-world sys "dtoverlay" ("-r" ∷ o ∷ []) w) (k.remove_keeps w)

    pub removed-applied : removed.0 ≡ ok tt → suc (k.applied removed.1) ≡ k.applied w
    removed-applied done =
        rw (same, run_command-world sys "dtoverlay" ("-r" ∷ o ∷ []) w)
          (k.remove_removes w (run_command-ok sys "dtoverlay" ("-r" ∷ o ∷ []) w (rw same at done)))

    pub not_removed-applied : removed.0 ≢ ok tt → k.applied removed.1 ≡ k.applied w
    not_removed-applied failed =
        rw (same, run_command-world sys "dtoverlay" ("-r" ∷ o ∷ []) w)
          (k.remove_fails w
            (run_command-fails sys "dtoverlay" ("-r" ∷ o ∷ []) w (rw same at failed)))

    pub works-removed : RemovalWorks sys m o k → 0 < k.applied w → removed.0 ≡ ok tt
    works-removed works there =
        rw same
          (run_command-succeeds sys "dtoverlay" ("-r" ∷ o ∷ []) w (works.remove_works w there))

  module _ (directory name : String) (rest : List String) (same : name ≡ o) (w : sys.World) where
    abbrev pub applied : Outcome {0} Unit × sys.World
    applied = run_command sys "dtoverlay" ("-d" ∷ directory ∷ name ∷ rest) w

    pub applied-loaded : k.loaded applied.1 ≡ k.loaded w
    applied-loaded =
        let tail = directory ∷ name ∷ rest in
        rw (run_command-world sys "dtoverlay" ("-d" ∷ tail) w) (k.apply_keeps tail w)

    pub applied-applied : applied.0 ≡ ok tt → k.applied applied.1 ≡ suc (k.applied w)
    applied-applied done =
        let arguments = "-d" ∷ directory ∷ o ∷ rest in
        rw (same, run_command-world sys "dtoverlay" arguments w)
          (k.apply_adds directory rest w
            (run_command-ok sys "dtoverlay" arguments w (rw same at done)))

    pub not_applied-applied : applied.0 ≢ ok tt → k.applied applied.1 ≡ k.applied w
    not_applied-applied failed =
        let tail = directory ∷ name ∷ rest in
        rw (run_command-world sys "dtoverlay" ("-d" ∷ tail) w)
          (k.apply_fails tail w (run_command-fails sys "dtoverlay" ("-d" ∷ tail) w failed))

  module _ (name : String) (same : name ≡ m) (w : sys.World) where
    abbrev pub unloaded : Outcome {0} Unit × sys.World
    unloaded = run_command sys "rmmod" (name ∷ []) w

    pub unloaded-applied : k.applied unloaded.1 ≡ k.applied w
    unloaded-applied = rw (same, run_command-world sys "rmmod" (m ∷ []) w) (k.rmmod_keeps w)

    pub unloaded-loaded : unloaded.0 ≡ ok tt → k.loaded unloaded.1 ≡ false
    unloaded-loaded done =
        rw (same, run_command-world sys "rmmod" (m ∷ []) w)
          (k.rmmod_removes w (run_command-ok sys "rmmod" (m ∷ []) w (rw same at done)))

    pub not_unloaded-loaded : unloaded.0 ≢ ok tt → k.loaded unloaded.1 ≡ k.loaded w
    not_unloaded-loaded failed =
        rw (same, run_command-world sys "rmmod" (m ∷ []) w)
          (k.rmmod_fails w (run_command-fails sys "rmmod" (m ∷ []) w (rw same at failed)))

    pub works-unloaded : RemovalWorks sys m o k → k.loaded w ≡ true → unloaded.0 ≡ ok tt
    works-unloaded works there =
        rw same (run_command-succeeds sys "rmmod" (m ∷ []) w (works.rmmod_works w there))

    module _ (directory : String) where
      abbrev pub inserted : Outcome {0} Unit × sys.World
      inserted = run_command sys "insmod" (join directory (name <> ".ko") ∷ []) w

      pub inserted-applied : k.applied inserted.1 ≡ k.applied w
      inserted-applied =
          let arguments = join directory (name <> ".ko") ∷ [] in
          rw (run_command-world sys "insmod" arguments w) (k.insmod_keeps arguments w)

      pub inserted-loaded : inserted.0 ≡ ok tt → k.loaded inserted.1 ≡ true
      inserted-loaded done =
          let arguments = join directory (m <> ".ko") ∷ [] in
          rw (same, run_command-world sys "insmod" arguments w)
            (k.insmod_adds directory w (run_command-ok sys "insmod" arguments w (rw same at done)))

      pub not_inserted-loaded : inserted.0 ≢ ok tt → k.loaded inserted.1 ≡ k.loaded w
      not_inserted-loaded failed =
          let arguments = join directory (name <> ".ko") ∷ [] in
          rw (run_command-world sys "insmod" arguments w)
            (k.insmod_fails arguments w (run_command-fails sys "insmod" arguments w failed))
