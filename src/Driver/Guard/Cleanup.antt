-- ===== src/Driver/Guard/Cleanup.antt =====
-- src/kernel_target.rs: what `unload` and a failed `load_configured` leave behind.
use raspberry_pi_i2c_target.Prelude.{
  ℕ, zero, suc, ◌+◌, true, false, ◌≡◌, ◌≢◌, refl, sym, arith, ap, ◌∙◌, Bool, if◌then◌else◌, List,
  ◌∷◌, Outcome, ok, err, panic, out_of_fuel, Bool-cases, inl, inr,
}
use raspberry_pi_i2c_target.Text.{String}
use raspberry_pi_i2c_target.Driver.System.{System}
use raspberry_pi_i2c_target.Driver.Kernel.{Kernel, RemovalWorks}
use raspberry_pi_i2c_target.Driver.Kernel.Runs.{
  applied, applied-applied, applied-loaded, inserted, inserted-applied, inserted-loaded,
  not_applied-applied, not_inserted-loaded, not_removed-applied, not_unloaded-loaded, removed,
  removed-applied, removed-loaded, unloaded, unloaded-applied, unloaded-loaded, works-removed,
  works-unloaded,
}
use raspberry_pi_i2c_target.Driver.Guard.{
  DriverConfiguration, DriverGuard, fresh_guard, with_guard, unload_overlay, unload, drop_guard,
  or_drop, wait_for_device, wait_fuel, wait_a_second, await_device, insert_module, start_driver,
}

-- Once `unload` has succeeded, another call does nothing: `drop` runs no command a second time.
pub unload_twice :
    (sys : System) (g g' : DriverGuard) (w w' v : sys.World)
    → unload sys g w ≡ (ok tt, (g', w'))
    → unload sys g' v ≡ (ok tt, (g', v))
unfolding unload unload_overlay
unload_twice sys g g' w w' v e = ground (arith, e)

-- What holds of `call()?;` and the rest: the call succeeds and the rest is made, or it does not, and
-- the guard is as it was.
with_guard-holds :
    {W : Type 0} (P : Outcome {0} Unit × (DriverGuard × W) → Type 0) (g : DriverGuard)
    (r : Outcome {0} Unit × W) (f : W → Outcome {0} Unit × (DriverGuard × W))
    → (r.0 ≡ ok tt → P (f r.1))
    → ((result : Outcome {0} Unit) → r.0 ≡ result → result ≢ ok tt → P (result, (g, r.1)))
    → P (with_guard g r f)
with_guard-holds P g (ok tt, w) f good bad = good refl
with_guard-holds P g (err e, w) f good bad = bad (err e) refl (λ q. cc)
with_guard-holds P g (panic, w) f good bad = bad panic refl (λ q. cc)
with_guard-holds P g (out_of_fuel, w) f good bad = bad out_of_fuel refl (λ q. cc)

module _ (sys : System) (m o : String) (k : Kernel sys m o) where
  -- The instances of the overlay that a guard with this flag has loaded.
  abbrev pub instances : Bool → ℕ
  instances loaded = if loaded then 1 else 0

  -- Neither the module nor the overlay is there.
  abbrev pub IsClean : sys.World → Type 0
  IsClean w = (k.loaded w ≡ false) × (k.applied w ≡ 0)

  -- The guard is for this module and this overlay, and its flags say exactly what is there.
  abbrev pub Covers : DriverGuard → sys.World → Type 0
  Covers g w =
      (g.module_file ≡ m)
      × (g.overlay ≡ o)
      × (g.module_loaded ≡ k.loaded w)
      × (instances g.overlay_loaded ≡ k.applied w)

  -- The guard covers what is there, after a success that is nothing, and there is one where the
  -- commands that remove are not refused.
  abbrev Unloads : Outcome {0} Unit × (DriverGuard × sys.World) → Type 0
  Unloads r =
      Covers r.1.0 r.1.1 × (r.0 ≡ ok tt → IsClean r.1.1) × (RemovalWorks sys m o k → r.0 ≡ ok tt)

  unload_overlay-Unloads :
      (g : DriverGuard) (w : sys.World)
      → Covers g w
      → g.module_loaded ≡ false
      → Unloads (unload_overlay sys g w)
  unfolding unload_overlay
  unload_overlay-Unloads g w (same, over, h, a) off = elim (Bool-cases g.overlay_loaded) [
    | inr bare ↦
        let none_there : k.applied w ≡ 0 = sym a ∙ ap instances bare in
        simp bare ((same, over, h, sym none_there), λ _. (sym h ∙ off, none_there), λ _. refl)
    | inl on ↦
        let one_there : k.applied w ≡ 1 = sym a ∙ ap instances on in
        simp on (
          with_guard-holds Unloads g (removed sys m o k g.overlay over w)
            (λ w. (ok tt, (record g { overlay_loaded = false }, w)))
            (λ done. (
              (
                same,
                over,
                h ∙ sym (removed-loaded sys m o k g.overlay over w),
                omega (arith, removed-applied sys m o k g.overlay over w done, one_there),
              ),
              λ _. (
                removed-loaded sys m o k g.overlay over w ∙ sym h ∙ off,
                omega (arith, removed-applied sys m o k g.overlay over w done, one_there),
              ),
              λ _. refl,
            ))
            (λ result e failed.
              let not_done : (removed sys m o k g.overlay over w).0 ≢ ok tt =
                λ q. failed (sym e ∙ q) in
              (
                (
                  same,
                  over,
                  h ∙ sym (removed-loaded sys m o k g.overlay over w),
                  a ∙ sym (not_removed-applied sys m o k g.overlay over w not_done),
                ),
                λ q. absurd (failed q),
                λ works. absurd (
                    not_done
                      (works-removed sys m o k g.overlay over w works (omega (arith, one_there)))),
              )))
  ]

  unload-Unloads : (g : DriverGuard) (w : sys.World) → Covers g w → Unloads (unload sys g w)
  unfolding unload
  unload-Unloads g w (same, over, h, a) = elim (Bool-cases g.module_loaded) [
    | inr off ↦ simp off (unload_overlay-Unloads g w (same, over, h, a) off)
    | inl on ↦ simp on (
        with_guard-holds Unloads g (unloaded sys m o k g.module_file same w)
          (unload_overlay sys (record g { module_loaded = false }))
          (λ done.
            unload_overlay-Unloads (record g { module_loaded = false })
              (unloaded sys m o k g.module_file same w).1
              (
                same,
                over,
                sym (unloaded-loaded sys m o k g.module_file same w done),
                a ∙ sym (unloaded-applied sys m o k g.module_file same w),
              )
              refl)
          (λ result e failed.
            let not_done : (unloaded sys m o k g.module_file same w).0 ≢ ok tt =
              λ q. failed (sym e ∙ q) in
            (
              (
                same,
                over,
                h ∙ sym (not_unloaded-loaded sys m o k g.module_file same w not_done),
                a ∙ sym (unloaded-applied sys m o k g.module_file same w),
              ),
              λ q. absurd (failed q),
              λ works.
                  absurd
                    (not_done (works-unloaded sys m o k g.module_file same w works (sym h ∙ on))),
            )))
  ]

  -- Whether `unload` succeeds or not, the flags of the guard say afterwards what is still there, and
  -- after a success that is neither the module nor the overlay.
  pub unload-Covers :
      (g : DriverGuard) (w : sys.World)
      → Covers g w
      → Covers (unload sys g w).1.0 (unload sys g w).1.1
        × ((unload sys g w).0 ≡ ok tt → IsClean (unload sys g w).1.1)
  unload-Covers g w covers = let (after, clean, done) = unload-Unloads g w covers in (after, clean)

  -- If the flags of the guard say what is there, and the commands that remove are not refused where
  -- there is something to remove, then `unload` succeeds and removes what is there.
  pub unload-IsClean :
      RemovalWorks sys m o k
      → (g : DriverGuard) (w : sys.World) → Covers g w
      → ((unload sys g w).0 ≡ ok tt) × IsClean (unload sys g w).1.1
  unload-IsClean works g w covers =
      let (after, clean, done) = unload-Unloads g w covers in (done works, clean (done works))

  wait_for_device-keeps :
      (fuel : ℕ) (path : String) (deadline : ℕ) (w : sys.World)
      → (k.loaded (wait_for_device sys fuel path deadline w).1 ≡ k.loaded w)
        × (k.applied (wait_for_device sys fuel path deadline w).1 ≡ k.applied w)
  unfolding wait_for_device
  wait_for_device-keeps zero path deadline w = (refl, refl)
  wait_for_device-keeps (suc fuel) path deadline w =
      let w1 = (sys.exists path w).1 in
      let w2 = (sys.now w1).1 in
      ground (
        arith,
        k.exists_keeps path w,
        k.now_keeps w1,
        k.sleep_keeps 10 w2,
        wait_for_device-keeps fuel path deadline (sys.sleep 10 w2),
      )

  -- A guard covers what is there; an error and a panic leave nothing.
  abbrev pub Leaves : Outcome DriverGuard × sys.World → Type 0
  Leaves (ok g, w) = Covers g w
  Leaves (err e, w) = IsClean w
  Leaves (panic, w) = IsClean w
  Leaves (out_of_fuel, w) = Unit

  module _ (works : RemovalWorks sys m o k) where
    or_drop-Leaves :
        (g : DriverGuard) (r : Outcome {0} Unit × sys.World)
        (f : sys.World → Outcome DriverGuard × sys.World)
        → ((r.0 ≡ ok tt → ⊥) → Covers g r.1)
        → (r.0 ≡ ok tt → Leaves (f r.1))
        → Leaves (or_drop sys g r f)
    unfolding drop_guard
    or_drop-Leaves g (ok a, w) f bad good = good refl
    or_drop-Leaves g (err e, w) f bad good = (unload-IsClean works g w (bad (λ q. cc))).1
    or_drop-Leaves g (panic, w) f bad good = (unload-IsClean works g w (bad (λ q. cc))).1
    or_drop-Leaves g (out_of_fuel, w) f bad good = tt

    await_device-Leaves :
        (g : DriverGuard) (path : String) (w : sys.World)
        → Covers g w
        → Leaves (await_device sys g path w)
    unfolding await_device wait_a_second
    await_device-Leaves g path w (same, over, h, a) =
        or_drop-Leaves g (wait_a_second sys path w) (λ w. (ok g, w)) (λ _. waited) (λ _. waited)
      where
        w1 : sys.World
        w1 = (sys.now w).1

        kept :
            (k.loaded (wait_a_second sys path w).1 ≡ k.loaded w)
            × (k.applied (wait_a_second sys path w).1 ≡ k.applied w)
        kept =
            let (l, p) = wait_for_device-keeps wait_fuel path ((sys.now w).0 + 1000) w1 in
            (l ∙ (k.now_keeps w).0, p ∙ (k.now_keeps w).1)

        waited : Covers g (wait_a_second sys path w).1
        waited = (same, over, h ∙ sym kept.0, a ∙ sym kept.1)

    insert_module-Leaves :
        (g : DriverGuard) (directory path : String) (w : sys.World)
        → Covers g w
        → Leaves (insert_module sys g directory path w)
    unfolding insert_module
    insert_module-Leaves g directory path w (same, over, h, a) =
        or_drop-Leaves g (inserted sys m o k g.module_file same w directory)
          (await_device sys (record g { module_loaded = true }) path)
          (λ failed. (
            same,
            over,
            h ∙ sym (not_inserted-loaded sys m o k g.module_file same w directory failed),
            a ∙ sym (inserted-applied sys m o k g.module_file same w directory),
          ))
          (λ done.
            await_device-Leaves (record g { module_loaded = true }) path
              (inserted sys m o k g.module_file same w directory).1
              (
                same,
                over,
                sym (inserted-loaded sys m o k g.module_file same w directory done),
                a ∙ sym (inserted-applied sys m o k g.module_file same w directory),
              ))

    -- The lines of `load_configured` behind the guard's creation, in a kernel with neither the module
    -- nor the overlay, and where the commands that remove are not refused if there is something to
    -- remove: an error or a panic leaves it so, since the dropped guard removes whatever had been
    -- loaded, and the flags of a guard that is returned say exactly what is there.
    pub start_driver-Leaves :
        (c : DriverConfiguration) (directory path : String) (rest : List String) (w : sys.World)
        → c.module_file ≡ m
        → c.overlay ≡ o
        → IsClean w
        → Leaves (
            start_driver sys (fresh_guard c) directory ("-d" ∷ directory ∷ c.overlay ∷ rest) path w)
    unfolding start_driver
    start_driver-Leaves c directory path rest w same over (absent, bare) =
        or_drop-Leaves (fresh_guard c) (applied sys m o k directory c.overlay rest over w)
          (insert_module sys (record (fresh_guard c) { overlay_loaded = true }) directory path)
          (λ failed. (
            same,
            over,
            sym (applied-loaded sys m o k directory c.overlay rest over w ∙ absent),
            sym (not_applied-applied sys m o k directory c.overlay rest over w failed ∙ bare),
          ))
          (λ done.
            insert_module-Leaves (record (fresh_guard c) { overlay_loaded = true }) directory path
              (applied sys m o k directory c.overlay rest over w).1
              (
                same,
                over,
                sym (applied-loaded sys m o k directory c.overlay rest over w ∙ absent),
                sym (applied-applied sys m o k directory c.overlay rest over w done ∙ ap suc bare),
              ))
