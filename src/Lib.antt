-- ===== src/Lib.antt =====
-- A verification library of the scripts around openQA.
--
-- Parts and files
-- ---------------
-- Prelude: Boolean tests on numbers, lists and options, with the lemmas that the other parts share.
--
-- Py: the parts of Python that the scripts use. Py.Str has `str` as a list of code points with strip,
-- split, partition and splitlines; Py.Num `str(n)` and `int(s)`; Py.Dict dictionaries as association
-- lists; Py.Json decoded JSON. Numbers are natural numbers; white space and line breaks are those of
-- `str.isspace` and `str.splitlines`.
--
-- Py.Regex matches the regular expressions by backtracking; Py.Text and Py.Sort have more methods of
-- `str`, and `sorted`; Py.Path is `posixpath.normpath` and Py.Repr `repr` of a text.
--
-- Reaper: s390x-qemu-zombie-reaper.py. `reap` checks every hypervisor over SSH for stuck qemu
-- processes and an unhealthy libvirt. A host that is critical is rebooted, over SSH or by the HMC, and
-- the openQA jobs that ran on it are restarted once it is back.
-- - Reaper.Machine: the world as a record of functions. Subprocesses, `urlopen`, the clock, files,
--   locks, netrc and the JSON codec are parameters; `HasClock` and `HasFiles` are what some
--   theorems rely on: a clock that does not go back, which `time.time()` keeps only while nobody
--   sets the system clock back, and files that hold what was written and moved.
-- - Reaper.Exec: programs as functions from a state, which is the world and a trace of what was
--   done, to a result or an exception. Exec.Keeps and Exec.Raises have the rules for what a program
--   may add to the trace and what it may raise.
-- - Reaper.Config and Reaper.Main.Settings: `ReaperConfig`, the constants, `load_env_file` and
--   `parse_hmc_lpars`.
-- - Reaper.Ssh: `run_ssh`, `run_cmd`. Reaper.Workers: `get_running_jobs`. Reaper.Wait:
--   `wait_for_host`. Reaper.RebootState: the file of reboot times and the deadlines.
-- - Reaper.Hmc: `HmcSession`, `hmc_credentials` and the loops that poll the HMC.
-- - Reaper.Recover: `hmc_force_reboot` to `trigger_actions`. Reaper.Check and Check.Pids:
--   `check_libvirt_health` to `handle_host`. Reaper.Main: `file_lock`, `reap_all_hosts` and `reap`.
-- - Reaper.DryRun: the whole program with `--dry-run`. Reaper.Tests: runs on a small laboratory.
--
-- Investigate: the package openqa_llm_investigate, which prepares a failed openQA job for a language
-- model and reads its verdict.
-- - Investigate.Step: a step of a test module, as openQA lists it.
-- - Investigate.Text: openqa_llm_investigate/text.py. Text.Credentials and Text.Redact have the
--   patterns that are masked and `redact`; Text.Commands and Text.Died the commands in the text of
--   a step, Text.Search what to search for in a log; Text.Summary the lines that describe a step;
--   Text.Lines and Text.Noise the trimming of traces and failure texts; Text.Polls and
--   Text.Condense `condense_log`, where the scores of needles are exact decimals. Text.Bounds says
--   how long they get.
-- - Investigate.Failures: openqa_llm_investigate/failures.py. Clusters of failing steps and the
--   steps around them; Failures.Commands the command that failed, Failures.Xfstests the summary of
--   xfstests, Failures.Repeats the failures that repeat and `failing_cluster`, Failures.Modules the
--   modules of a job.
-- - Investigate.History: openqa_llm_investigate/history.py. The server is a parameter that answers
--   with rows and jobs; History.Runs has the runs before and after a job and their reviews, and
--   History.Siblings the other jobs of its build and `run_history`. The number of job details
--   fetched is passed along. History.Header has a job of the API and `job_header`. History.Budget and
--   History.Reads are about the details that are fetched.
-- - Investigate.Logs: openqa_llm_investigate/logs.py. The search for a text, ranges of lines and
--   the output of a command; Logs.Crash has the fatal events of a boot. Logs.Rules and Logs.Signals
--   have the rules for key errors and `summarize_key_error`, Logs.Job what is fetched and reported of
--   a job as a whole.
-- - Investigate.Http: openqa_llm_investigate/http.py. The cache of the client and the cap on the
--   files of a job, which are streamed in chunks. Http.Extends says that entries of the cache stay,
--   Http.Refines compares the client with one that has no cache.
-- - Investigate.Uploads: openqa_llm_investigate/uploads.py. The choice of uploaded files and their
--   excerpts; Uploads.Widgets reads a dump of widgets, Uploads.Collect fetches the files, with the
--   cache passed along, and Uploads.Dedupe is about the deduplication of lines.
-- - Investigate.Commits: openqa_llm_investigate/commits.py. Commits.Files has the files of commits,
--   modules and stack traces; the parent the marks and the section of the prompt.
-- - Investigate.Analysis: openqa_llm_investigate/analysis.py, which composes all of these.
--   Analysis.Section and Analysis.Title have the sections and names, Analysis.Bodies the texts of
--   the failing steps, Analysis.Context the steps around a cluster, Analysis.Cluster the report on
--   one, Analysis.Failing the texts that are searched for the key error, and Analysis.Report the
--   report on a module and what stands before it. The parent has `_analyze` and `analyze_job`. Steps
--   and modules have a place, which stands for the identity of the object that `is` and `id` look
--   at. A result that is missing stands for the `ValueError` that `condense_log` raises for a score
--   that is no number.
-- - Investigate.Verdict: openqa_llm_investigate/verdict.py, the rules that override a verdict.
--
-- PowerManagement: openqa-powermanagement.py. The lists of machines of openQA's workers, and the commands
-- that power machines on and off, from the decoded answers of openQA and the configuration.
--
-- TokenRotation: rotate-gitlab-token.py. The rotation of an access token, of the variable that holds it
-- and of the schedule of the pipeline. GitLab is a parameter, and dates are numbers of days.
--
-- Both have their theorems in Laws and runs in Tests.
--
-- Bounds and fuel
-- ---------------
-- Time is in microseconds. The loops of `wait_for_host` and of the HMC client run on fuel that is
-- computed from the time left until their deadline; with a clock that does not go back and a pause of
-- at least one microsecond it is enough, so the model never stops for want of fuel there.
--
-- The matcher of Py.Regex runs a loop at most once for each character that is left, since a round that
-- takes nothing ends the loop; `sub` takes a character in every round.
--
-- Not modelled
-- ------------
-- What the reaper prints, the details of a TLS context, the command line parser, threads that run
-- inside a handler at the same time (the pool runs the hosts one after another, in any order), and
-- job ids that are not whole numbers, which the model treats as an answer of an unexpected form.
-- In the regular expressions `\d` and `\w` stand for the ASCII characters of their class, and `repr`
-- takes the characters from U+00A1 on, but for the soft hyphen, to be printable. The messages of the
-- exceptions of the HTTP client, what it logs, and its decoding of JSON are left out: the server is a
-- parameter with decoded answers. The command line around an analysis, openqa-llm-investigate, is not
-- modelled.
-- The command lines of openqa-powermanagement.py and rotate-gitlab-token.py are left out as well.
-- The shell scripts are glue around other programs. The Python scripts whose names do not appear
-- above are not modelled either.
pub mod Prelude
pub mod Py
pub mod Reaper
pub mod Investigate
pub mod PowerManagement
pub mod TokenRotation
