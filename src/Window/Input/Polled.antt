-- ===== src/Window/Input/Polled.antt =====
-- src/sdl_display.rs: what `SdlDisplay::poll_input` reports.
use raspberry_pi_i2c_target.Prelude.{
  ℕ, zero, suc, ◌≤◌, ◌≡◌, ◌∙◌, refl, sym, ap, arith, ◌*◌, ◌/◌, ◌==◌, ◌||◌, Bool, true, false, not,
  ltb, List, [], ◌∷◌, length, Option, none, some, ok, Bool-cases, inl, inr,
}
use raspberry_pi_i2c_target.Buttons.{ButtonState, SdlInput, equal_flags, equal_states}
use raspberry_pi_i2c_target.Window.Input.{
  Position, is_left_of, mouse_buttons_for_x, Sdl, sdl_quit, drain_events, Held, report, read_mouse,
  poll_input,
}

thirds : (x width : ℕ) → ltb x (width / 3) ≡ true → ltb x (width * 2 / 3) ≡ true
thirds x width e = grind arith

-- The left button is held in the left two thirds of the window and the right button in the right two
-- thirds, where a position left of the window counts as the leftmost third.
pub mouse_buttons_for_x_lem :
    (x : Position) (width : ℕ)
    → ((mouse_buttons_for_x x width).left ≡ is_left_of x (width * 2 / 3))
      × ((mouse_buttons_for_x x width).right ≡ not (is_left_of x (width / 3)))
unfolding mouse_buttons_for_x
mouse_buttons_for_x_lem (Position.negsuc x) width = (refl, refl)
mouse_buttons_for_x_lem (Position.pos x) width = elim (Bool-cases (ltb x (width / 3))) [
  | inl near ↦ rw near (sym (thirds x width near), refl)
  | inr far ↦ elim (Bool-cases (ltb x (width * 2 / 3))) [
    | inl middle ↦ rw (far, middle) (refl, refl)
    | inr beyond ↦ rw (far, beyond) (refl, refl)
  ]
]

abbrev pub head : List ℕ → Option ℕ
head [] = none
head (event ∷ events) = some event

abbrev pub tail : List ℕ → List ℕ
tail [] = []
tail (event ∷ events) = events

-- `SDL_PollEvent` takes the events off a queue, in their order.
pub record Events (s : Sdl) : Type 0 where
  pub waiting : s.World → List ℕ
  pub poll_head : (w : s.World) → (s.poll_event w).0 ≡ head (waiting w)
  pub poll_tail : (w : s.World) → waiting (s.poll_event w).1 ≡ tail (waiting w)

-- Whether one of the events asks to quit.
unfoldable pub asks_quit : List ℕ → Bool
asks_quit [] = false
asks_quit (event ∷ events) = event == sdl_quit || asks_quit events

or_assoc : (a b c : Bool) → ((a || b) || c) ≡ (a || (b || c))
or_assoc true b c = refl
or_assoc false b c = refl

or_false : (a : Bool) → (a || false) ≡ a
or_false true = refl
or_false false = refl

module _ (s : Sdl) (q : Events s) where
  drained :
      (events : List ℕ) (fuel : ℕ) (close : Bool) (w : s.World)
      → q.waiting w ≡ events
      → suc (length events) ≤ fuel
      → ((drain_events s fuel close w).0 ≡ ok (close || asks_quit events))
        × (q.waiting (drain_events s fuel close w).1 ≡ [])
  unfolding drain_events asks_quit
  drained events zero close w e h = absurd (omega arith)
  drained [] (suc fuel) close w e h =
      let none_left : (s.poll_event w).0 ≡ none = q.poll_head w ∙ ap head e in
      rw none_left (ap ok (sym (or_false close)), q.poll_tail w ∙ ap tail e)
  drained (event ∷ events) (suc fuel) close w e h =
      let next : (s.poll_event w).0 ≡ some event = q.poll_head w ∙ ap head e in
      let (a, b) =
        drained events fuel (close || event == sdl_quit) (s.poll_event w).1
          (q.poll_tail w ∙ ap tail e) (omega arith) in
      rw next (a ∙ ap ok (or_assoc close (event == sdl_quit) (asks_quit events)), b)

equal_flags-same : (a b : Bool) → equal_flags a b ≡ true → b ≡ a
unfolding equal_flags
equal_flags-same true b e = e
equal_flags-same false true e = sym e
equal_flags-same false false e = refl

abbrev pack : Bool → Bool → ButtonState
pack left right = record { left = left; right = right }

same_state : (a b : ButtonState) → a.left ≡ b.left → a.right ≡ b.right → a ≡ b
same_state a b l r = ap (λ left. pack left a.right) l ∙ ap (pack b.left) r

report-mouse : (buttons : ButtonState) (h : Held) → (report buttons h).mouse_buttons ≡ buttons
report-mouse buttons h = elim (Bool-cases (equal_states buttons h.reported_buttons)) [
  | inl same ↦ rw same refl
  | inr differs ↦ rw differs refl
]

report-same : (buttons : ButtonState) (h : Held) → (report buttons h).reported_buttons ≡ buttons
unfolding equal_states
report-same buttons h =
    let reported = h.reported_buttons in
    elim (Bool-cases (equal_flags buttons.left reported.left)) [
      | inr differs ↦ rw differs refl
      | inl left ↦ elim (Bool-cases (equal_flags buttons.right reported.right)) [
        | inr differs ↦ rw (left, differs) refl
        | inl right ↦
            rw (left, right)
              (same_state reported buttons (equal_flags-same buttons.left reported.left left)
                (equal_flags-same buttons.right reported.right right))
      ]
    ]

module _ (s : Sdl) (q : Events s) where
  -- With more fuel than events are waiting, `poll_input` returns; it reports the wish to close
  -- exactly where one of the events waiting is `SDL_QUIT`, and afterwards both fields of the display
  -- are the buttons that it returns.
  pub poll_input-Reports :
      (fuel : ℕ) (h : Held) (w : s.World)
      → suc (length (q.waiting w)) ≤ fuel
      → (input : SdlInput) × (held : Held) × ((poll_input s fuel h w).0 ≡ ok (input, held))
        × (input.close ≡ asks_quit (q.waiting w))
        × (held.mouse_buttons ≡ input.buttons)
        × (held.reported_buttons ≡ input.buttons)
  unfolding poll_input
  poll_input-Reports fuel h w enough =
      let (polled, _) = drained s q (q.waiting w) fuel false w refl enough in
      let w1 = (drain_events s fuel false w).1 in
      let buttons = (read_mouse s w1).0 in
      (
        record { close = asks_quit (q.waiting w); buttons = buttons },
        report buttons h,
        rw polled refl,
        refl,
        report-mouse buttons h,
        report-same buttons h,
      )
