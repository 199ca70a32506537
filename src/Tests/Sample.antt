-- ===== src/Tests/Sample.antt =====
-- A small world on which the interfaces of the programs can be run: a kernel with one module and one
-- overlay, a clock, a window and a flag. Each hypothesis of the interfaces holds of it.
use raspberry_pi_i2c_target.Prelude.{
  length, ◌==◌, ◌++◌, ℕ, ◌+◌, ◌<◌, Bool, true, false, not, ◌≡◌, refl, arith, List, [], ◌∷◌, some,
  Outcome, ok, err, ErrorKind, zero, suc, out_of_fuel, ◌≢◌, Bytes, replicate, if◌then◌else◌,
}
use raspberry_pi_i2c_target.Text.{String, equals, words_from, is_space}
use raspberry_pi_i2c_target.Driver.System.{System, Output}
use raspberry_pi_i2c_target.Driver.Commands.{
  run_command, active_overlays, command_output, overlay_is_active, any_equals,
}
use raspberry_pi_i2c_target.Driver.Kernel.{Kernel, RemovalWorks, succeeded}
use raspberry_pi_i2c_target.Driver.Clock.{Clock}
use raspberry_pi_i2c_target.Driver.Existing.{Instances, names}
use raspberry_pi_i2c_target.Responder.Device.{Device, add_response}
use raspberry_pi_i2c_target.Responder.Serve.Queue.{Patience}
use raspberry_pi_i2c_target.VirtualDisplay.Platform.{Platform, Screen, responds}
use raspberry_pi_i2c_target.VirtualDisplay.Runtime.Driven.{Lines, granted, with_values, Levels}

pub record Sample : Type 0 where
  pub loaded : Bool
  pub applied : Bool
  pub time : ℕ
  pub shown : Bytes
  pub running : Bool
  pub records : List Bytes
  pub responses : List Bytes
  pub lines : Lines

abbrev pub bare : Sample
bare = record {
  loaded = false;
  applied = false;
  time = 0;
  shown = replicate 1024 0;
  running = true;
  records = [];
  responses = [];
  lines = record { offsets = []; level = λ i. 0 };
}

abbrev pub wrote : String → Outcome Output
wrote text = ok (record { success = true; status = ""; stdout = text; stderr = "" })

abbrev pub refused : Outcome Output
refused =
    ok (record { success = false; status = "exit status: 1"; stdout = ""; stderr = "refused" })

-- A command that succeeds where it can.
abbrev pub attempt : Bool → Sample → Sample → Outcome Output × Sample
attempt true after w = (wrote "", after)
attempt false after w = (refused, w)

abbrev pub count : Sample → ℕ
count w = if w.applied then 1 else 0

pub attempt-removes :
    (there : Bool) (after w : Sample)
    → after.loaded ≡ false
    → succeeded (attempt there after w).0 ≡ true
    → (attempt there after w).1.loaded ≡ false
attempt-removes true after w e done = e
attempt-removes false after w e done = cc

pub attempt-removes_one :
    (there : Bool) (after w : Sample)
    → count after ≡ 0
    → count w ≡ (if there then 1 else 0)
    → succeeded (attempt there after w).0 ≡ true
    → suc (count (attempt there after w).1) ≡ count w
attempt-removes_one true after w e c done = omega (arith, e, c)
attempt-removes_one false after w e c done = cc

pub attempt-adds_one :
    (there : Bool) (after w : Sample)
    → count after ≡ 1
    → count w ≡ (if there then 1 else 0)
    → succeeded (attempt (not there) after w).0 ≡ true
    → count (attempt (not there) after w).1 ≡ suc (count w)
attempt-adds_one true after w e c done = cc
attempt-adds_one false after w e c done = omega (arith, e, c)

pub attempt-works :
    (there : Bool) (after w : Sample)
    → 0 < (if there then 1 else 0)
    → succeeded (attempt there after w).0 ≡ true
attempt-works true after w h = refl
attempt-works false after w h = absurd (omega (arith, h))

pub attempt-fails :
    {A : Type 0} (view : Sample → A) (possible : Bool) (after w : Sample)
    → succeeded (attempt possible after w).0 ≡ false
    → view (attempt possible after w).1 ≡ view w
attempt-fails view true after w failed = cc
attempt-fails view false after w failed = refl

pub attempt-keeps :
    {A : Type 0} (view : Sample → A) (possible : Bool) (after w : Sample)
    → view after ≡ view w
    → view (attempt possible after w).1 ≡ view w
attempt-keeps view true after w e = e
attempt-keeps view false after w e = refl

-- `dtoverlay`, by its first argument. An overlay that is active is not loaded again, and what is not
-- there cannot be removed.
abbrev pub dtoverlay : List String → Sample → Outcome Output × Sample
dtoverlay [] w = (refused, w)
dtoverlay (flag ∷ rest) w =
    if equals flag "-d"
    then attempt (not w.applied) (record w { applied = true }) w
    else if equals flag "-r"
    then attempt w.applied (record w { applied = false }) w
    else (wrote (if w.applied then "o" else ""), w)

abbrev rmmod : Sample → Outcome Output × Sample
rmmod w = attempt w.loaded (record w { loaded = false }) w

abbrev execute : String → List String → Sample → Outcome Output × Sample
execute program arguments w =
    if equals program "dtoverlay"
    then dtoverlay arguments w
    else if equals program "rmmod"
    then rmmod w
    else if equals program "insmod"
    then (wrote "", record w { loaded = true })
    else (refused, w)

abbrev pub system : System
system = record {
  World = Sample;
  execute = execute;
  exists = λ path w. (false, w);
  is_file = λ path w. (true, w);
  modified = λ path w. (ok 0, w);
  read_text = λ path w. (ok "Raspberry Pi 4 Model B", w);
  now = λ w. (w.time, w);
  sleep = λ n w. record w { time = w.time + n };
  geteuid = λ w. (0, w);
  canonicalize = λ path w. (ok path, w);
  current_exe = λ w. (ok "/i2c/target/virtual-display", w);
  is_dir = λ path w. (true, w);
  ancestors = λ path. path ∷ "/i2c/target" ∷ "/i2c" ∷ [];
  trim = λ text. text;
  debug_model = λ text. text;
}

unfoldable pub kernel : Kernel system "m" "o"
unfolding equals
kernel = record {
  loaded = λ w. w.loaded;
  applied = count;
  apply_keeps =
      λ rest w. attempt-keeps (λ v. v.loaded) (not w.applied) (record w { applied = true }) w refl;
  apply_fails = λ rest w e. attempt-fails count (not w.applied) (record w { applied = true }) w e;
  apply_adds =
      λ directory rest w e. attempt-adds_one w.applied (record w { applied = true }) w refl refl e;
  insmod_keeps = λ arguments w. refl;
  insmod_fails = λ arguments w e. cc;
  insmod_adds = λ directory w e. refl;
  rmmod_removes = λ w e. attempt-removes w.loaded (record w { loaded = false }) w refl e;
  rmmod_fails = λ w e. attempt-fails (λ v. v.loaded) w.loaded (record w { loaded = false }) w e;
  rmmod_keeps = λ w. attempt-keeps count w.loaded (record w { loaded = false }) w refl;
  remove_removes =
      λ w e. attempt-removes_one w.applied (record w { applied = false }) w refl refl e;
  remove_fails = λ w e. attempt-fails count w.applied (record w { applied = false }) w e;
  remove_keeps = λ w. attempt-keeps (λ v. v.loaded) w.applied (record w { applied = false }) w refl;
  exists_keeps = λ path w. (refl, refl);
  now_keeps = λ w. (refl, refl);
  sleep_keeps = λ n w. (refl, refl);
}

unfoldable pub removal : RemovalWorks system "m" "o" kernel
unfolding equals kernel
removal = record {
  rmmod_works = λ w e. rw e refl;
  remove_works = λ w e. attempt-works w.applied (record w { applied = false }) w e;
}

abbrev pub clock : Clock system
clock = record {
  time = λ w. w.time;
  reads = λ w. refl;
  now_grows = λ w. omega arith;
  exists_grows = λ path w. omega arith;
  sleeps = λ n w. omega arith;
}

pub named : (b : Bool) → names (ok (if b then "o" else "")) "o" ≡ true → 0 < (if b then 1 else 0)
unfolding equals overlay_is_active any_equals words_from is_space
named true e = omega arith
named false e = cc

-- The removal of the one instance, by whether it is there.
pub one_less :
    (applied : Bool) (w : Sample)
    → 0 < (if applied then 1 else 0)
    → (if (run_command system "dtoverlay"
          ("-r" ∷ "o" ∷ [])
          (record w { applied = applied })).1.applied
        then 1
        else 0)
      < (if applied then 1 else 0)
unfolding equals run_command command_output
one_less true w h = omega arith
one_less false w h = absurd (omega (arith, h))

pub never_without_fuel :
    (applied : Bool) (w : Sample)
    → (run_command system "dtoverlay" ("-r" ∷ "o" ∷ []) (record w { applied = applied })).0
      ≢ out_of_fuel
unfolding equals run_command command_output
never_without_fuel true w e = cc
never_without_fuel false w e = cc

unfoldable pub instances : Instances system "o"
unfolding equals run_command active_overlays command_output overlay_is_active any_equals words_from
    is_space
instances = record {
  count = λ w. if w.applied then 1 else 0;
  listing_keeps = λ w. refl;
  listed = λ w e. named w.applied e;
  remove_one = λ w e h. one_less w.applied w h;
  listing_ends = λ w e. cc;
  remove_ends = λ w e. never_without_fuel w.applied w e;
}

-- A message is there at the start, and nothing later.
abbrev pub receive : ℕ → Outcome Bytes
receive zero = ok (0x00 ∷ 0x21 ∷ 0 ∷ 0 ∷ 0x22 ∷ 0 ∷ 0 ∷ 0x40 ∷ 0x55 ∷ [])
receive (suc time) = err (record { kind = ErrorKind.would_block; message = "" })

pub receive-responds : (time : ℕ) → responds (receive time) ≡ true
receive-responds zero = refl
receive-responds (suc time) = refl

abbrev pub platform : Platform
platform = record {
  system = system;
  open_target = λ w. (ok tt, w);
  read = λ w. (receive w.time, w);
  open_window = λ title vsync w. (ok tt, record w { shown = replicate 1024 0 });
  render = λ b w. (ok tt, record w { shown = b });
  poll_input = λ w. (record { close = true; buttons = record { left = true; right = false } }, w);
  chip = record {
    open_chip = λ path w. (ok tt, w);
    get_lines = λ number request w. (ok (some 7), record w { lines = granted request });
    set_values =
        λ descriptor number values w. (ok tt, record w { lines = with_values values w.lines });
  };
  is_running = λ w. (w.running, w);
  stop = λ w. record w { running = false };
}

abbrev pub screen : Screen platform
screen = record {
  shown = λ w. w.shown;
  time = λ w. w.time;
  render_responds = λ b w. refl;
  set_responds = λ descriptor number values w. refl;
  renders = λ b w e. refl;
  render_time = λ b w. omega arith;
  reads = λ w. (refl, omega arith);
  poll_time = λ w. omega arith;
  set_time = λ descriptor number values w. omega arith;
  stop_time = λ w. omega arith;
  now_shown = λ w. refl;
  poll_shown = λ w. refl;
  set_shown = λ descriptor number values w. refl;
  stop_shown = λ w. refl;
  read_keeps = λ w. (refl, omega arith);
  running_keeps = λ w. (refl, omega arith);
  sleep_keeps = λ n w. (refl, omega arith);
  read_responds = λ w. receive-responds w.time;
}

-- The device gives one short record again and again, and takes every response.
abbrev pub device : Device
device = record {
  system = system;
  open_target = λ writes w. (ok tt, w);
  read = λ w. (ok (1 ∷ 2 ∷ []), record w { records = w.records ++ ((1 ∷ 2 ∷ []) ∷ []) });
  write = λ b w. (ok (length b), record w { responses = w.responses ++ (b ∷ []) });
  is_running = λ w. (w.running, w);
}

same_length : (n : ℕ) → (n == n) ≡ true
same_length n = ground arith

pub log_write :
    (b : Bytes) (w : Sample) → w.responses ++ (b ∷ []) ≡ add_response b (ok (length b)) w.responses
log_write b w = rw (same_length (length b)) refl

abbrev pub patience : Patience device
patience = record {
  time = λ w. w.time;
  interruptions = λ w. 0;
  reads = λ w. (refl, omega arith);
  now_leaves = λ w. omega arith;
  sleeps = λ n w. omega arith;
  sleep_leaves = λ n w. omega arith;
  write_time = λ b w. omega arith;
  write_leaves = λ b w. tt;
}

abbrev pub line_levels : Levels platform
line_levels = record {
  levels = λ w descriptor. w.lines;
  request_sets = λ request descriptor w e output drain. refl;
  set_sets = λ descriptor values w e. refl;
  render_levels = λ b w. refl;
  now_levels = λ w. refl;
  poll_levels = λ w. refl;
  stop_levels = λ w. refl;
}
