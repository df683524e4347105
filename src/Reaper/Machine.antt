-- ===== src/Reaper/Machine.antt =====
-- What s390x-qemu-zombie-reaper.py asks of the world around it: processes, HTTP, files, the clock,
-- ~/.netrc and the JSON decoder. Nothing of this is in the repository, so it is a record that the
-- model takes as a parameter. `W` is the state of that world, which only these calls change.
use os_autoinst_scripts.Prelude.{ℕ, Bool, Option, ◌+◌, ◌≤◌, ◌≡◌, some, true, false, ◌≢◌}
use os_autoinst_scripts.Py.Str.{Str}
use os_autoinst_scripts.Py.Json.{Value}

-- Time is counted in microseconds.
abbrev pub second : ℕ
second = 1000000

-- The arguments of `subprocess.run(shlex.split(line), input=…, timeout=…)`. `merged` says that
-- stderr goes to stdout; the timeout is in seconds.
pub record Command : Type 0 where
  pub line : Str
  pub input : Option Str
  pub merged : Bool
  pub timeout : ℕ

-- A `CompletedProcess` with its stdout, a `TimeoutExpired`, or an `OSError` of the start.
pub data Completed : Type 0 where
  exited : ℕ → Str → Completed
  signalled : ℕ → Str → Completed
  timed_out : Completed
  not_started : Completed

pub record Request : Type 0 where
  pub method : Str
  pub url : Str
  pub body : Option Value
  pub session : Option Str
  pub verified : Bool
  pub timeout : ℕ

-- The raw body of a response: empty, decoded by `json.loads`, or refused by it.
pub data Body : Type 0 where
  empty : Body
  json : Value → Body
  garbled : Body

-- `failed` is a `URLError` or another `OSError`, and `interrupted` an exception of `http.client` that is
-- neither, such as an `IncompleteRead` where the connection is dropped within the body.
pub data Reply : Type 0 where
  answered : ℕ → Body → Reply
  http_error : ℕ → Reply
  failed : Reply
  interrupted : Reply

pub record Machine (W : Type 0) : Type 0 where
  -- the clock that `time.time()` reads, and the world after the reading
  pub now : W → ℕ
  pub tick : W → W
  pub sleep : ℕ → W → W
  pub run : Command → W → Completed × W
  pub urlopen : Request → W → Reply × W
  -- `json.loads(path.read_text())`, `none` for an `OSError` or a `ValueError`
  pub load : Str → W → Option Value
  -- `path.write_text(json.dumps(value))` and `path.replace(other)`; `false` for an `OSError`
  pub write : Str → Value → W → Bool × W
  pub replace : Str → Str → W → Bool × W
  -- login and password of `netrc.netrc().authenticators(host)`, `none` if there is no such entry
  -- or the file cannot be read or parsed
  pub authenticators : Str → Option (Str × Str)
  -- `json.loads`, `none` for a `JSONDecodeError`
  pub loads : Str → Option Value
  -- `str` of a value that is no text
  pub render : Value → Str
  -- does `ssl.create_default_context(cafile=…)` accept the file, or raise an `OSError`?
  pub ca_loads : Option Str → Bool
  -- a non-blocking exclusive `flock` of the file, `none` for an `OSError` of the `mkdir` or `open`
  -- before it, and its release
  pub flock : Str → W → Option Bool × W
  pub funlock : Str → W → W

-- A clock that does not go back while the script runs. `time.time()` does not promise that: the system
-- clock may be set back, which this leaves out. `time.sleep` suspends for at least the given time.
pub record HasClock {W : Type 0} (m : Machine W) : Type 0 where
  pub tick_after : (w : W) → m.now w ≤ m.now (m.tick w)
  pub sleep_after : (t : ℕ) (w : W) → m.now w + t ≤ m.now (m.sleep t w)
  pub run_after : (c : Command) (w : W) → m.now w ≤ m.now (m.run c w).1
  pub urlopen_after : (r : Request) (w : W) → m.now w ≤ m.now (m.urlopen r w).1

-- What it says of files: what was written is read back, `replace` moves the text to the other
-- name, and a failed call leaves every file as it was.
pub record HasFiles {W : Type 0} (m : Machine W) : Type 0 where
  pub load-write :
      (p : Str) (v : Value) (w : W) → (m.write p v w).0 ≡ true → m.load p (m.write p v w).1 ≡ some v
  pub load-write_ne :
      (p q : Str) (v : Value) (w : W) → p ≢ q → m.load q (m.write p v w).1 ≡ m.load q w
  pub load-replace :
      (p q : Str) (w : W) → (m.replace p q w).0 ≡ true → m.load q (m.replace p q w).1 ≡ m.load p w
  pub load-replace_failed :
      (p q r : Str) (w : W)
      → (m.replace p q w).0 ≡ false
      → m.load r (m.replace p q w).1 ≡ m.load r w
  pub load-tick : (p : Str) (w : W) → m.load p (m.tick w) ≡ m.load p w
