-- ===== src/Protocol/Scan/Advance.antt =====
-- src/display_protocol.rs: one call of `scan` keeps the parser well formed and makes headway.
use raspberry_pi_i2c_target.Prelude.{
  ℕ, ◌+◌, ◌-◌, ◌≤◌, ◌<◌, bit_and, true, ◌≡◌, refl, arith, length, length-drop, get_or, [], ◌∷◌,
  Bytes, Bool-cases, inl, inr, ltb, bit_and-le, starts_with, within,
}
use raspberry_pi_i2c_target.Protocol.State.{
  ssd1306_init, sh1106_init, sh1106_display_on, DisplayController, ParseUpdate, ParseState,
  DisplayParser,
}
use raspberry_pi_i2c_target.Protocol.Scan.{
  has_pattern, waiting, drained, resynchronize, ssd1306_tail, valid_rectangle, scan_address,
  scan_ssd1306, Range, incomplete, invalid, columns, hinted_range, legacy_range, page_range,
  sh1106_tail, begin_page, page_command, scan_page, scan_sh1106, scan_as, scan,
}
use raspberry_pi_i2c_target.Protocol.Invariant.{IsWellFormed, state_weight, Advances}

state_weight-le : (s : ParseState) → state_weight s ≤ 1
state_weight-le ParseState.scan = omega arith
state_weight-le _ = omega arith

has_pattern-length : (xs ys : Bytes) → has_pattern xs ys ≡ true → length ys ≤ length xs
unfolding has_pattern
has_pattern-length xs ys h = ground arith

-- `page_command & 7`
bit_and_seven-lt : (c : ℕ) → bit_and c 7 < 8
bit_and_seven-lt c = omega (arith, bit_and-le c 7)

-- What `page_range` may answer about a stream of at least five bytes.
abbrev pub RangeFits : Range → Bytes → Type 0
RangeFits incomplete pending = Unit
RangeFits invalid pending = Unit
RangeFits (columns n x width) pending =
    (0 < n) × (n ≤ length pending) × (0 < width) × (x + width ≤ 128)

pub page_range-RangeFits :
    (pending : Bytes) → 5 ≤ length pending → RangeFits (page_range pending) pending
unfolding page_range hinted_range legacy_range
page_range-RangeFits pending h = ground arith

module _ (p : DisplayParser) (u : ParseUpdate) (w : IsWellFormed p)
    (s : p.state ≡ ParseState.scan) where
  waiting-Advances : Advances p u (waiting p u)
  waiting-Advances = ground arith

  resynchronize-Advances : Advances p u (resynchronize p u)
  unfolding resynchronize
  resynchronize-Advances = ground (arith, length-drop 1 p.pending)

  drained-Advances :
      (n : ℕ) (q : DisplayParser)
      → 0 < n
      → n ≤ length p.pending
      → q.pending ≡ p.pending
      → q.controller ≡ p.controller
      → IsWellFormed q
      → Advances p u (drained n q u)
  drained-Advances n q pos le same c wf =
      ground (arith, state_weight-le q.state, length-drop n q.pending)

  ssd1306_tail-Advances : Advances p u (ssd1306_tail p u)
  unfolding ssd1306_tail
  ssd1306_tail-Advances = ground (arith, resynchronize-Advances)

  sh1106_tail-Advances : Advances p u (sh1106_tail p u)
  unfolding sh1106_tail
  sh1106_tail-Advances = ground (arith, resynchronize-Advances)

  address-Advances :
      (x end_x page end_page : ℕ)
      → p.controller ≡ DisplayController.ssd1306
      → 7 ≤ length p.pending
      → (x ≤ end_x) × (end_x < 128) × (page ≤ end_page) × (end_page < 8)
      → Advances p u (
          drained 7
            (record p {
              state = ParseState.ssd1306_data x (end_x - x + 1) page (end_page - page + 1);
            })
            u)
  address-Advances x end_x page end_page c l v =
      drained-Advances 7 _ (omega arith) l refl refl
        (record { size = w.size; fits = ground arith; pages_byte = w.pages_byte })

  scan_address-Advances : p.controller ≡ DisplayController.ssd1306 → Advances p u (scan_address p u)
  unfolding scan_address
  scan_address-Advances c = elim (Bool-cases (starts_with p.pending (0x00 ∷ 0x21 ∷ []))) [
    | inr other ↦ rw other ssd1306_tail-Advances
    | inl address ↦ elim (Bool-cases (ltb (length p.pending) 7)) [
      | inl short ↦ rw (address, short) waiting-Advances
      | inr long ↦ elim (Bool-cases (valid_rectangle p.pending)) [
        | inl v ↦
            rw (address, long, v)
              (address-Advances _ _ _ _ c (ground arith) (unfold valid_rectangle in ground arith))
        | inr v ↦ rw (address, long, v) ssd1306_tail-Advances
      ]
    ]
  ]

  scan_ssd1306-Advances : p.controller ≡ DisplayController.ssd1306 → Advances p u (scan_ssd1306 p u)
  unfolding scan_ssd1306
  scan_ssd1306-Advances c = elim (Bool-cases (has_pattern p.pending ssd1306_init)) [
    | inl h ↦
        rw h (drained-Advances 26 p (omega arith) (has_pattern-length _ ssd1306_init h) refl refl w)
    | inr h ↦ rw h (scan_address-Advances c)
  ]

  begin_page-Advances :
      p.controller ≡ DisplayController.sh1106
      → (r : Range) (page : ℕ) → page < 8
      → RangeFits r p.pending
      → Advances p u (begin_page r page p u)
  unfolding begin_page
  begin_page-Advances c incomplete page h f = waiting-Advances
  begin_page-Advances c invalid page h f = sh1106_tail-Advances
  begin_page-Advances c (columns n x width) page h f =
      drained-Advances n _ f.0 f.1 refl refl
        (record { size = w.size; fits = ground arith; pages_byte = ground arith })

  page_command-Advances :
      p.controller ≡ DisplayController.sh1106
      → (page : ℕ) → page < 8
      → Advances p u (page_command page p u)
  unfolding page_command
  page_command-Advances c page h =
      ground
        (arith, begin_page-Advances c (page_range p.pending) page h, page_range-RangeFits p.pending)

  scan_page-Advances : p.controller ≡ DisplayController.sh1106 → Advances p u (scan_page p u)
  unfolding scan_page
  scan_page-Advances c = elim (Bool-cases (starts_with p.pending (0x00 ∷ []))) [
    | inr other ↦ rw other sh1106_tail-Advances
    | inl command ↦ elim (Bool-cases (ltb (length p.pending) 2)) [
      | inl short ↦ rw (command, short) waiting-Advances
      | inr long ↦ elim (Bool-cases (within 0xb0 0xb7 (get_or p.pending 1 0))) [
        | inl page ↦
            rw (command, long, page)
              (page_command-Advances c _ (bit_and_seven-lt (get_or p.pending 1 0)))
        | inr page ↦ rw (command, long, page) sh1106_tail-Advances
      ]
    ]
  ]

  scan_sh1106-Advances : p.controller ≡ DisplayController.sh1106 → Advances p u (scan_sh1106 p u)
  unfolding scan_sh1106
  scan_sh1106-Advances c = elim (Bool-cases (has_pattern p.pending sh1106_init)) [
    | inl h ↦
        rw h (drained-Advances 26 p (omega arith) (has_pattern-length _ sh1106_init h) refl refl w)
    | inr h ↦ elim (Bool-cases (has_pattern p.pending sh1106_display_on)) [
      | inl on ↦
          let long = has_pattern-length p.pending sh1106_display_on on in
          rw (h, on) (drained-Advances 2 p (omega arith) long refl refl w)
      | inr on ↦ rw (h, on) (scan_page-Advances c)
    ]
  ]

  scan_as-Advances : (c : DisplayController) → p.controller ≡ c → Advances p u (scan_as c p u)
  unfolding scan_as
  scan_as-Advances DisplayController.ssd1306 e = scan_ssd1306-Advances e
  scan_as-Advances DisplayController.sh1106 e = scan_sh1106-Advances e

  pub scan-Advances : Advances p u (scan p u)
  unfolding scan
  scan-Advances = scan_as-Advances p.controller refl
