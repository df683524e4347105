-- ===== src/Reaper/Tests/Lab.antt =====
-- A small machine for the tests: a clock, some files, and hosts that answer every command alike. It
-- satisfies what the theorems assume of a machine.
use os_autoinst_scripts.Prelude.{
  ℕ, ◌+◌, ◌≡◌, refl, Bool, true, false, Option, none, some, [], arith,
}
use os_autoinst_scripts.Py.Str.{Str, codes, eqb_iff, eqb_refl}
use os_autoinst_scripts.Py.Dict.{Dict, lookup, insert, lookup-insert}
use os_autoinst_scripts.Py.Json.{Value, int, text, array, object, nil, cons, end, field}
use os_autoinst_scripts.Reaper.Machine.{Machine, HasClock, HasFiles, Completed, answered, json}

pub record World : Type 0 where
  pub clock : ℕ
  pub files : Dict Value

abbrev store : Str → Value → World → World
store p v w = record w { files = insert p v w.files }

abbrev moved : Str → Option Value → World → Bool × World
moved q none w = (false, w)
moved q (some v) w = (true, store q v w)

lookup-moved :
    (q : Str) (o : Option Value) (w : World)
    → (moved q o w).0 ≡ true
    → lookup q (moved q o w).1.files ≡ o
lookup-moved q none w h = cc
lookup-moved q (some v) w h = ground (arith, lookup-insert q q v w.files, eqb_refl q)

-- One worker that uses s390zl12 and runs job 7.
abbrev pub worker_list : Value
worker_list = object (
    field (codes "workers")
      (array (
        cons
          (object (
            field (codes "jobid") (int 7) (
              field (codes "properties")
                (object (field (codes "WORKER_CLASS") (text (codes "s390-kvm,s390zl12")) end))
                end)))
          nil))
      end)

-- `answer` is how every command ends; `free` says whether the lock is free. The HMC answers with the
-- object `reply`.
abbrev pub lab : Completed → Bool → Value → Machine World
lab answer free reply = record {
  now = λ w. w.clock;
  tick = λ w. record w { clock = w.clock + 1 };
  sleep = λ t w. record w { clock = w.clock + t };
  run = λ c w. (answer, record w { clock = w.clock + 1 });
  urlopen = λ q w. (answered 200 (json reply), record w { clock = w.clock + 1 });
  load = λ p w. lookup p w.files;
  write = λ p v w. (true, store p v w);
  replace = λ p q w. moved q (lookup p w.files) w;
  authenticators = λ host. none;
  loads = λ s. some worker_list;
  render = λ v. [];
  ca_loads = λ ca. true;
  flock = λ p w. (some free, w);
  funlock = λ p w. w;
}

pub lab-HasClock :
    (answer : Completed) (free : Bool) (reply : Value) → HasClock (lab answer free reply)
lab-HasClock answer free reply = record {
  tick_after = λ w. omega arith;
  sleep_after = λ t w. omega arith;
  run_after = λ c w. omega arith;
  urlopen_after = λ q w. omega arith;
}

pub lab-HasFiles :
    (answer : Completed) (free : Bool) (reply : Value) → HasFiles (lab answer free reply)
lab-HasFiles answer free reply = record {
  load-write = λ p v w h. ground (arith, lookup-insert p p v w.files, eqb_refl p);
  load-write_ne = λ p q v w ne. ground (arith, lookup-insert p q v w.files, eqb_iff p q, ne);
  load-replace = λ p q w h. lookup-moved q (lookup p w.files) w h;
  load-replace_failed = λ p q r w h. ground arith;
  load-tick = λ p w. refl;
}
