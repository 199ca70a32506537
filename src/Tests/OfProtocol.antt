-- ===== src/Tests/OfProtocol.antt =====
-- src/display_protocol.rs on concrete messages.
use raspberry_pi_i2c_target.Prelude.{
  ℕ, true, ◌≡◌, refl, arith, ◌<◌, [], ◌∷◌, ◌++◌, List, Bytes, ok, replicate, length-replicate, some,
  length, starts_with,
}
use raspberry_pi_i2c_target.Protocol.State.{DisplayController, no_update, DisplayParser, new}
use raspberry_pi_i2c_target.Protocol.Invariant.{new-IsWellFormed}
use raspberry_pi_i2c_target.Protocol.Scan.{
  decode_column, has_pattern, ssd1306_tail, scan_address, scan_ssd1306, scan_as, scan, page_falls,
}
use raspberry_pi_i2c_target.Protocol.Data.{is_full_frame}
use raspberry_pi_i2c_target.Protocol.Push.{
  step_in, step, presents, Pushed, push_loop, push, receive,
}
use raspberry_pi_i2c_target.Protocol.Push.Total.{Completes, push-Completes}
use raspberry_pi_i2c_target.Protocol.Push.Append.{continue_push, push-append}
use raspberry_pi_i2c_target.Protocol.Push.Feed.{feed, feed-concat}
use raspberry_pi_i2c_target.Protocol.Push.Changes.{push_unchanged}
use raspberry_pi_i2c_target.Protocol.Push.Descends.{measure, push-descends}
use raspberry_pi_i2c_target.Protocol.Wire.{
  rectangle_message, page_message, columns_message, low_nibble, high_nibble,
}
use raspberry_pi_i2c_target.Protocol.Wire.Ssd1306.{
  IsRectangle, IsIdle, Draws, push-rectangle_message,
}
use raspberry_pi_i2c_target.Protocol.Wire.PageCommand.{IsPagePart, IsInOrder, decode_column-nibbles}
use raspberry_pi_i2c_target.Protocol.Wire.Sh1106.{
  DrawsPage, push-columns_message, push-page_message,
}
use raspberry_pi_i2c_target.Protocol.Wire.Frame.{
  page_messages, AllWhole, DrawsPages, feed-page_messages,
}

abbrev pub start : DisplayController → DisplayParser
start c = new c

pub start-IsIdle : (c : DisplayController) → IsIdle c (start c)
unfolding new
start-IsIdle c = record {
  well_formed = new-IsWellFormed c;
  controller = refl;
  scanning = refl;
  nothing_pending = refl;
}

-- A rectangle of three columns and two pages.
abbrev pub pixels : Bytes
pixels = 1 ∷ 2 ∷ 3 ∷ 4 ∷ 5 ∷ 6 ∷ []

abbrev message : Bytes
message = rectangle_message 10 3 2 2 pixels

pub pixels-IsRectangle : IsRectangle 10 3 2 2 pixels
pixels-IsRectangle = record {
  some_columns = omega arith;
  columns_fit = omega arith;
  some_pages = omega arith;
  pages_fit = omega arith;
  filled = refl;
}

push-rectangle_message_example :
    (out : Pushed) × (push (start DisplayController.ssd1306) message ≡ ok out)
    × Draws
        (start DisplayController.ssd1306)
        10
        3
        2
        2
        pixels
        (start-IsIdle DisplayController.ssd1306)
        pixels-IsRectangle
        out
push-rectangle_message_example =
    push-rectangle_message (start DisplayController.ssd1306) 10 3 2 2 pixels
      (start-IsIdle DisplayController.ssd1306) pixels-IsRectangle

push-Completes_example :
    Completes
      (receive (start DisplayController.ssd1306) message)
      no_update
      (push (start DisplayController.ssd1306) message)
push-Completes_example =
    push-Completes (start DisplayController.ssd1306) message
      (new-IsWellFormed DisplayController.ssd1306)

-- The message without its end, and a call with the end.
abbrev half : Bytes
half = 0x00 ∷ 0x21 ∷ 10 ∷ 12 ∷ []

abbrev rest : Bytes
rest = 0x22 ∷ 2 ∷ 3 ∷ 0x40 ∷ pixels

abbrev waiting_half : Pushed
waiting_half = record {
  parser = record (start DisplayController.ssd1306) { pending = half };
  update = no_update;
}

push-half : push (start DisplayController.ssd1306) half ≡ ok waiting_half
unfolding push push_loop step step_in new scan scan_as scan_ssd1306 scan_address has_pattern
    starts_with ssd1306_tail
push-half = refl

push-append_example :
    push (start DisplayController.ssd1306) (half ++ rest) ≡ continue_push waiting_half rest
push-append_example =
    push-append (start DisplayController.ssd1306) half rest waiting_half
      (new-IsWellFormed DisplayController.ssd1306) push-half

push_unchanged_example :
    waiting_half.parser.framebuffer ≡ (start DisplayController.ssd1306).framebuffer
push_unchanged_example =
    push_unchanged (start DisplayController.ssd1306) half waiting_half push-half refl

-- The columns 5 to 7 of page 3 of an SH1106.
abbrev columns : Bytes
columns = 7 ∷ 8 ∷ 9 ∷ []

columns-IsPagePart : IsPagePart 3 5 3 columns
columns-IsPagePart = record {
  page_fits = omega arith;
  some_columns = omega arith;
  columns_fit = omega arith;
  filled = refl;
}

start-IsInOrder : (page : ℕ) → IsInOrder (start DisplayController.sh1106) page
unfolding new page_falls
start-IsInOrder page = refl

push-columns_message_example :
    (out : Pushed) × (push (start DisplayController.sh1106) (columns_message 3 5 3 columns)
      ≡ ok out)
    × DrawsPage
        (start DisplayController.sh1106)
        3
        5
        3
        columns
        (start-IsIdle DisplayController.sh1106)
        columns-IsPagePart
        (start-IsInOrder 3)
        out
push-columns_message_example =
    push-columns_message (start DisplayController.sh1106) 3 5 3 columns
      (start-IsIdle DisplayController.sh1106) columns-IsPagePart (start-IsInOrder 3)

abbrev row : Bytes
row = replicate 128 0xff

row-IsPagePart : IsPagePart 3 0 128 row
row-IsPagePart = record {
  page_fits = omega arith;
  some_columns = omega arith;
  columns_fit = omega arith;
  filled = length-replicate {A = ℕ} 128 0xff;
}

push-page_message_example :
    (out : Pushed) × (push (start DisplayController.sh1106) (page_message 3 row) ≡ ok out)
    × DrawsPage
        (start DisplayController.sh1106)
        3
        0
        128
        row
        (start-IsIdle DisplayController.sh1106)
        row-IsPagePart
        (start-IsInOrder 3)
        out
push-page_message_example =
    push-page_message (start DisplayController.sh1106) 3 0 128 row
      (start-IsIdle DisplayController.sh1106) row-IsPagePart (start-IsInOrder 3) refl refl

abbrev rows : List Bytes
rows = row ∷ row ∷ row ∷ row ∷ row ∷ row ∷ row ∷ row ∷ []

row-length : length row ≡ 128
row-length = length-replicate {A = ℕ} 128 0xff

rows-AllWhole : AllWhole rows
rows-AllWhole = one (one (one (one (one (one (one (one tt)))))))
  where
    one : {A : Type 0} → A → (length row ≡ 128) × A
    one a = (row-length, a)

feed-page_messages_example :
    (out : Pushed) × (feed (start DisplayController.sh1106) (page_messages 0 rows) ≡ ok out)
    × DrawsPages 0 rows (start DisplayController.sh1106) out
feed-page_messages_example =
    feed-page_messages rows (start DisplayController.sh1106) refl rows-AllWhole
      (start-IsIdle DisplayController.sh1106) (start-IsInOrder 0)

decode_column-nibbles_example : decode_column (low_nibble 131) (high_nibble 131) ≡ some 131
decode_column-nibbles_example = decode_column-nibbles 131 (omega arith)

abbrev drawn : Pushed
drawn = push-rectangle_message_example.0

feed-concat_example : feed (start DisplayController.ssd1306) (half ∷ rest ∷ []) ≡ ok drawn
feed-concat_example =
    feed-concat (half ∷ rest ∷ []) (start DisplayController.ssd1306) drawn
      (new-IsWellFormed DisplayController.ssd1306) (omega arith, (omega arith, tt)) (omega arith)
      push-rectangle_message_example.1 push-rectangle_message_example.2.idle_again.nothing_pending

drawn_presents : presents drawn.update ≡ true
unfolding is_full_frame
drawn_presents = rw push-rectangle_message_example.2.counted refl

push-descends_example :
    measure drawn.parser < measure (receive (start DisplayController.ssd1306) message)
push-descends_example =
    push-descends (start DisplayController.ssd1306) message drawn
      (new-IsWellFormed DisplayController.ssd1306) push-rectangle_message_example.1 drawn_presents
