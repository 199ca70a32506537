-- ===== src/Protocol/Data/Copy.antt =====
-- src/display_protocol.rs: the copy loop of `read_ssd1306_data`.
use raspberry_pi_i2c_target.Prelude.{
  ℕ, zero, suc, ◌+◌, ◌-◌, ◌*◌, ◌/◌, ◌%◌, ◌≤◌, ◌<◌, Bool, false, ◌&&◌, ◌≡◌, refl, ◌∙◌, arith, length,
  take, drop, length-take, length-drop, get_or, get_or-take, get_or-drop, Bytes, slice, splice,
  length-splice, copy_from_slice-eq-splice, get_or-splice, ltb, leb, if◌then◌else◌, Outcome, ok,
  ◌==◌, ==_iff, Bool-cases, inl, inr, ap,
}
use raspberry_pi_i2c_target.Protocol.Data.{copy_rows}

-- Byte `i` of the framebuffer lies in the rectangle of pages and columns.
abbrev pub in_region : ℕ → ℕ → ℕ → ℕ → ℕ → Bool
in_region x width page pages i =
    leb page (i / 128)
    && ltb (i / 128) (page + pages)
    && leb x (i % 128)
    && ltb (i % 128) (x + width)

pub slice-eq :
    (xs : Bytes) (from to width : ℕ)
    → from + width ≡ to
    → to ≤ length xs
    → slice xs from to ≡ ok (take width (drop from xs))
unfolding slice
slice-eq xs from to width e h = rw (← (count from to width e)) (ground arith)
  where
    count : (a b c : ℕ) → a + c ≡ b → b - a ≡ c
    count a b c q = omega arith

pub length-row :
    (xs : Bytes) (from width : ℕ)
    → from + width ≤ length xs
    → length (take width (drop from xs)) ≡ width
length-row xs from width h = omega (arith, length-take width (drop from xs), length-drop from xs)

pub get_or-row :
    (xs : Bytes) (from width c d : ℕ)
    → c < width
    → get_or (take width (drop from xs)) c d ≡ get_or xs (from + c) d
get_or-row xs from width c d h = get_or-take width c (drop from xs) d h ∙ get_or-drop from c xs d

-- One row: the copied bytes, and the kept ones.
pub get_or-splice_row :
    (fb pending : Bytes) (target source width i : ℕ)
    → source + width ≤ length pending
    → target + width ≤ length fb
    → get_or (splice fb target (take width (drop source pending))) i 0 ≡ (
        if leb target i && ltb i (target + width)
        then get_or pending (source + (i - target)) 0
        else get_or fb i 0)
get_or-splice_row fb pending target source width i h k = ground (
  arith,
  length-row pending source width h,
  get_or-splice fb target (take width (drop source pending)) i 0,
  get_or-row pending source width (i - target) 0,
)

module _ (x width page : ℕ) (pending : Bytes) where
  -- The loop returns, with the rectangle of rounds `offset` to `offset + left` copied and every
  -- other byte kept.
  pub record Copies (left offset : ℕ) (framebuffer : Bytes) (r : Outcome Bytes) : Type 0 where
    pub out : Bytes
    pub returns : r ≡ ok out
    pub size : length out ≡ 1024
    pub inside :
        (o c : ℕ)
        → offset ≤ o
        → o < offset + left
        → c < width
        → get_or out ((page + o) * 128 + (x + c)) 0 ≡ get_or pending (1 + o * width + c) 0
    pub outside :
        (i : ℕ)
        → in_region x width (page + offset) left i ≡ false
        → get_or out i 0 ≡ get_or framebuffer i 0

  pub copy_rows-Copies :
      (left offset : ℕ) (framebuffer : Bytes)
      → length framebuffer ≡ 1024
      → x + width ≤ 128
      → page + offset + left ≤ 8
      → 1 + (offset + left) * width ≤ length pending
      → Copies left offset framebuffer (copy_rows left offset x width page pending framebuffer)
  unfolding copy_rows
  copy_rows-Copies zero offset fb size hx hp hl = record {
    out = fb;
    returns = refl;
    size = size;
    inside = λ o c h1 h2 h3. absurd (omega arith);
    outside = λ i h. refl;
  }
  copy_rows-Copies (suc left) offset fb size hx hp hl =
      let source = 1 + offset * width in
      let target = (page + offset) * 128 + x in
      let row = take width (drop source pending) in
      let fits : source + width ≤ length pending = grind arith in
      let len : length row ≡ width = length-row pending source width fits in
      let room : target + length row ≤ length fb = omega arith in
      let rest =
        copy_rows-Copies left (offset + 1) (splice fb target row)
          (length-splice fb target row room ∙ size) hx (omega arith) (omega arith) in
      record {
        out = rest.out;
        returns = rw (slice-eq pending source (source + width) width refl fits) (
            rw
              (copy_from_slice-eq-splice fb target (target + width) row (omega arith) (omega arith))
              rest.returns);
        size = rest.size;
        inside = λ o c h1 h2 h3. elim (Bool-cases (o == offset)) [
          | inl e ↦
              let same : o ≡ offset = (==_iff o offset).0 e in
              let i = (page + o) * 128 + (x + c) in
              let at : source + (i - target) ≡ 1 + o * width + c = rw same (omega arith) in
              rest.outside i (ground arith)
              ∙ get_or-splice_row fb pending target source width i fits (omega arith)
              ∙ ground (arith, ap (λ j. get_or pending j 0) at)
          | inr e ↦ rest.inside o c (ground arith) (ground arith) h3
        ];
        outside = λ i h.
            rest.outside i (ground arith)
            ∙ get_or-splice_row fb pending target source width i fits (omega arith)
            ∙ ground arith;
      }
