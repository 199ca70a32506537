-- ===== src/VirtualDisplay/Serve/Loop.antt =====
-- src/bin/virtual-display.rs: what the window shows while `serve` runs.
use raspberry_pi_i2c_target.Prelude.{
  ℕ, ◌≤◌, Bool, true, false, ◌≡◌, refl, sym, ◌∙◌, arith, Outcome, ok, err, panic, out_of_fuel,
  Bytes, Error, ErrorKind, Bool-cases, inl, inr, ◌>?◌, ◌==◌, leb,
}
use mathlib.Core.Path.{subst}
use raspberry_pi_i2c_target.VirtualDisplay.Platform.{Platform, Screen}
use raspberry_pi_i2c_target.VirtualDisplay.Runtime.{DisplayRuntime, poll_idle, push_input}
use raspberry_pi_i2c_target.VirtualDisplay.Runtime.Fresh.{
  IsFresh, IsPrompt, StaysPrompt, IsPrompt-IsFresh, earlier, later, still, poll_idle-prompt,
  push_input-fresh,
}
use raspberry_pi_i2c_target.VirtualDisplay.Serve.{
  Serving, read_failed, handle_read, serve_round, report, count_record,
}

-- The round reads nothing, since a signal came: the loop goes on at once.
abbrev pub interrupted : Outcome Bytes → Bool
interrupted (ok input) = false
interrupted (err error) = elim error.kind [ ErrorKind.interrupted ↦ true | _ ↦ false ]
interrupted panic = false
interrupted out_of_fuel = false

module _ (f : Platform) where
  -- One round of the running loop: the flag is found set, and the body returns.
  pub data Round (v : Serving) (w : f.system.World) (v' : Serving) (w' : f.system.World)
      : Type 0 where
    round :
        (f.is_running w).0 ≡ true
        → serve_round f v (f.is_running w).1 ≡ (ok v', w')
        → Round v w v' w'

  -- Any number of rounds.
  pub data Rounds (v' : Serving) (w' : f.system.World) : Serving → f.system.World → Type 0 where
    done : Rounds v' w' v' w'
    next :
        {v : Serving} {w : f.system.World} (u : Serving) (x : f.system.World)
        → Round v w u x
        → Rounds v' w' u x
        → Rounds v' w' v w

module _ (f : Platform) (s : Screen f) where
  abbrev ServesPrompt : (since : ℕ) → Outcome Serving × f.system.World → Type 0
  ServesPrompt since (ok v, w) = IsPrompt f s since v.display w
  ServesPrompt since (err e, w) = Unit
  ServesPrompt since (panic, w) = Unit
  ServesPrompt since (out_of_fuel, w) = Unit

  display-prompt :
      (since : ℕ) (m : Outcome DisplayRuntime × f.system.World)
      (g : DisplayRuntime → f.system.World → Outcome Serving × f.system.World)
      → StaysPrompt f s since m
      → ((r : DisplayRuntime) (w : f.system.World)
          → IsPrompt f s since r w
          → ServesPrompt since (g r w))
      → ServesPrompt since (m >? g)
  display-prompt since (ok r, w) g h k = k r w h
  display-prompt since (err e, w) g h k = tt
  display-prompt since (panic, w) g h k = tt
  display-prompt since (out_of_fuel, w) g h k = tt

  moved :
      (since : ℕ) (r : DisplayRuntime) (w w' : f.system.World)
      → (s.shown w' ≡ s.shown w) × (s.time w ≤ s.time w')
      → IsPrompt f s since r w
      → IsPrompt f s since r w'
  moved since r w w' (e, t) = later f s since r.partial_frame_deadline r.parser.framebuffer w w' e t

  unmoved :
      (r : DisplayRuntime) (w w' : f.system.World)
      → (s.shown w' ≡ s.shown w) × (s.time w ≤ s.time w')
      → IsFresh f s r w
      → IsFresh f s r w'
  unmoved r w w' (e, t) = still f s r.partial_frame_deadline r.parser.framebuffer w w' e t

  report-prompt :
      (since : ℕ) (v : Serving) (w : f.system.World)
      → IsPrompt f s since v.display w
      → ServesPrompt since (report f v w)
  report-prompt since v w h =
      let there = moved since v.display w (f.system.now w).1 (s.now_shown w, (s.reads w).1) h in
      elim (Bool-cases (v.received_records == 1)) [
        | inl first ↦ rw first there
        | inr again ↦ rw again (elim (Bool-cases (leb v.next_report (f.system.now w).0)) [
          | inl due ↦ rw due there
          | inr early ↦ rw early there
        ])
      ]

  read_failed-prompt :
      (kind : ErrorKind) (error : Error) (v : Serving) (w : f.system.World)
      → error.kind ≡ kind
      → interrupted (err error) ≡ false
      → IsFresh f s v.display w
      → ServesPrompt (s.time w) (read_failed f kind error v w)
  unfolding read_failed
  read_failed-prompt ErrorKind.would_block error v w e i h =
      display-prompt (s.time w) (poll_idle f v.display w) _ (poll_idle-prompt f s v.display w h)
        (λ r w' q. moved (s.time w) r w' (f.system.sleep 2 w') (s.sleep_keeps 2 w') q)
  read_failed-prompt ErrorKind.interrupted error v w e i h = absurd (cc (e, i))
  read_failed-prompt _ error v w e i h = tt

  handle_read-prompt :
      (r : Outcome Bytes) (v : Serving) (w : f.system.World)
      → interrupted r ≡ false
      → IsFresh f s v.display w
      → ServesPrompt (s.time w) (handle_read f r v w)
  unfolding handle_read
  handle_read-prompt (ok input) v w i h =
      display-prompt (s.time w) (push_input f v.display input w) _
        (push_input-fresh f s v.display input w h)
        (λ r w' q. report-prompt (s.time w) (count_record f (record v { display = r }) input) w' q)
  handle_read-prompt (err error) v w i h = read_failed-prompt error.kind error v w refl i h
  handle_read-prompt panic v w i h = tt
  handle_read-prompt out_of_fuel v w i h = tt

  -- A round of the running loop that is not interrupted.
  Round-IsPrompt :
      (v v' : Serving) (w w' : f.system.World)
      → IsFresh f s v.display w
      → Round f v w v' w'
      → interrupted (f.read (f.is_running w).1).0 ≡ false
      → IsPrompt f s (s.time w) v'.display w'
  unfolding serve_round
  Round-IsPrompt v v' w w' h (round running e) i =
      let w1 = (f.is_running w).1 in
      let w2 = (f.read w1).1 in
      let at_read =
        unmoved v.display w1 w2 (s.read_keeps w1) (unmoved v.display w w1 (s.running_keeps w) h) in
      let after : ServesPrompt (s.time w2) (ok v', w') =
        rw e at (handle_read-prompt (f.read w1).0 v w2 i at_read) in
      earlier f s (s.time w2) (s.time w) v'.display.partial_frame_deadline
        v'.display.parser.framebuffer w' (omega (arith, s.running_keeps w, s.read_keeps w1)) after

  read_failed-interrupted :
      (kind : ErrorKind) (error : Error) (v : Serving) (w : f.system.World)
      → error.kind ≡ kind
      → interrupted (err error) ≡ true
      → read_failed f kind error v w ≡ (ok v, w)
  unfolding read_failed
  read_failed-interrupted ErrorKind.interrupted error v w e i = refl
  read_failed-interrupted _ error v w e i = absurd (ground (arith, e, i))

  handle_read-interrupted :
      (r : Outcome Bytes) (v : Serving) (w : f.system.World)
      → interrupted r ≡ true
      → handle_read f r v w ≡ (ok v, w)
  unfolding handle_read
  handle_read-interrupted (err error) v w i = read_failed-interrupted error.kind error v w refl i
  handle_read-interrupted _ v w i = cc

  -- Any round of it.
  Round-IsFresh :
      (v v' : Serving) (w w' : f.system.World)
      → IsFresh f s v.display w
      → Round f v w v' w'
      → IsFresh f s v'.display w'
  unfolding serve_round
  Round-IsFresh v v' w w' h (round running e) =
      let w1 = (f.is_running w).1 in
      let w2 = (f.read w1).1 in
      elim (Bool-cases (interrupted (f.read w1).0)) [
        | inr quiet ↦
            IsPrompt-IsFresh f s (s.time w) v'.display.partial_frame_deadline
              v'.display.parser.framebuffer w' (Round-IsPrompt v v' w w' h (round running e) quiet)
        | inl signal ↦
            let same : ◌≡◌ {A = Outcome Serving × f.system.World} (ok v, w2) (ok v', w') =
              sym (handle_read-interrupted (f.read w1).0 v w2 signal) ∙ e in
            let same_v : v ≡ v' = cc same in
            let same_w : w2 ≡ w' = cc same in
            let at_read =
              unmoved v.display w1 w2 (s.read_keeps w1)
                (unmoved v.display w w1 (s.running_keeps w) h) in
            subst (λ x. IsFresh f s v'.display x) same_w
              (subst (λ (u : Serving). IsFresh f s u.display w2) same_v at_read)
      ]

  Rounds-IsFresh :
      (v' : Serving) (w' : f.system.World) {v : Serving} {w : f.system.World}
      → Rounds f v' w' v w
      → IsFresh f s v.display w
      → IsFresh f s v'.display w'
  Rounds-IsFresh v' w' done h = h
  Rounds-IsFresh v' w' {v} {w} (next u x one rest) h =
      Rounds-IsFresh v' w' rest (Round-IsFresh v u w x h one)

  -- While the loop runs: if it began with a window that showed the framebuffer, or a deadline at
  -- most 75 ms ahead, then after each round that no signal interrupts the window shows the
  -- framebuffer, or there is a deadline at most 75 ms ahead that had not come when the round began:
  -- one that had come has been rendered, also where nothing is received.
  pub Rounds-IsPrompt :
      (v u u' : Serving) (w x x' : f.system.World)
      → IsFresh f s v.display w
      → Rounds f u x v w
      → Round f u x u' x'
      → interrupted (f.read (f.is_running x).1).0 ≡ false
      → IsPrompt f s (s.time x) u'.display x'
  Rounds-IsPrompt v u u' w x x' h rounds = Round-IsPrompt u u' x x' (Rounds-IsFresh u x rounds h)
