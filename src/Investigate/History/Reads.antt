-- ===== src/Investigate/History/Reads.antt =====
-- On which details of jobs the history depends: openqa_llm_investigate/history.py.
use os_autoinst_scripts.Prelude.{
  ℕ, zero, suc, ◌+◌, ◌≤◌, ◌≡◌, refl, Bool, true, false, Option, none, some, List, [], ◌∷◌, ◌++◌,
  ◌==◌, map, arith, length, take, filter, ltb, any-append, length-append, ap, ◌∙◌, Bool-cases, inl,
  inr,
}
use os_autoinst_scripts.Py.Str.{Str, codes}
use os_autoinst_scripts.Py.Text.{or_empty}
use os_autoinst_scripts.Py.Sort.{sort_by}
use os_autoinst_scripts.Investigate.History.{
  Server, Row, Sibling, Failed, history_max_fetches, to_fetch, failure_groups, Group, latest_of,
  kinds, ranked, group_text, failed_commands, member,
}
use os_autoinst_scripts.Investigate.History.Runs.{
  runs_text, side, failed_part, neighbour_summary, as_failed, has_failed, done_rows, geb_id, leb_id,
  fetch_rows, sentence, earlier_reviews, rows_query,
}
use os_autoinst_scripts.Investigate.History.Siblings.{
  Job, siblings_text, if_others, from_answer, in_group, sibling_summary, run_history, line_of,
  with_blank,
}
use os_autoinst_scripts.Investigate.History.Budget.{count-budget}

map-same {ℓ κ} :
    {A : Type ℓ} {B : Type κ} (f g : A → B)
    → ((x : A) → f x ≡ g x)
    → (xs : List A) → map f xs ≡ map g xs
map-same f g h [] = refl
map-same f g h (x ∷ xs) = rw (h x, map-same f g h xs) refl

module _ (server : Server) where
  -- Another server with the same lists of runs and jobs, and the same details of the given jobs.
  abbrev pub Agrees : List ℕ → Server → Type 0
  Agrees ids other =
      ((query : Str) → other.rows query ≡ server.rows query)
      × ((query : Str) → other.jobs query ≡ server.jobs query)
      × ((id : ℕ) → member id ids ≡ true → other.details id ≡ server.details id)

  -- From a count of `n` on, what is computed counts and depends on the details of so many jobs.
  abbrev Reads : {A : Type 0} → ℕ → (Server → A × ℕ) → Type 0
  Reads n f =
      (ids : List ℕ) × ((f server).1 ≡ n + length ids)
      × ((other : Server) → Agrees ids other → f other ≡ f server)

  Reads-pure : {A : Type 0} (n : ℕ) (a : A) → Reads n (λ s. (a, n))
  Reads-pure n a = ([], omega arith, λ other h. refl)

  Reads-map :
      {A B : Type 0} (n : ℕ) (g : A → B) (f : Server → A × ℕ)
      → Reads n f
      → Reads n (λ s. (g (f s).0, (f s).1))
  Reads-map n g f (ids, e, h) = (ids, e, λ other k. ap (λ r. (g r.0, r.1)) (h other k))

  Reads-by :
      {A B : Type 0} (n : ℕ) (f : Server → A × ℕ) (g : Server → B × ℕ)
      → Reads n f
      → (g server).1 ≡ (f server).1
      → ((other : Server) → f other ≡ f server → g other ≡ g server)
      → Reads n g
  Reads-by n f g (ids, e, h) same k = (ids, same ∙ e, λ other a. k other (h other a))

  left : (ids more : List ℕ) (other : Server) → Agrees (ids ++ more) other → Agrees ids other
  left ids more other (r, j, d) =
      (r, j, λ id e. d id (any-append (λ k. k == id) ids more ∙ rw e refl))

  right : (ids more : List ℕ) (other : Server) → Agrees (ids ++ more) other → Agrees more other
  right ids more other (r, j, d) =
      (r, j, λ id e. d id (ground (arith, any-append (λ k. k == id) ids more, e)))

  Reads-then :
      {A B : Type 0} (n : ℕ) (f : Server → A × ℕ) (g : A → ℕ → Server → B × ℕ)
      → Reads n f
      → ((a : A) (m : ℕ) → Reads m (g a m))
      → Reads n (λ s. g (f s).0 (f s).1 s)
  Reads-then n f g (ids, e, h) k =
      let (more, e', h') = k (f server).0 (f server).1 in
      (
        ids ++ more,
        omega (arith, e, e', length-append ids more),
        λ other a.
            ap (λ r. g r.0 r.1 other) (h other (left ids more other a))
            ∙ h' other (right ids more other a),
      )

  Reads-jobs :
      {A : Type 0} (n : ℕ) (query : Str) (g : Option (List Sibling) → Server → A × ℕ)
      → Reads n (g (server.jobs query))
      → Reads n (λ s. g (s.jobs query) s)
  Reads-jobs n query g (ids, e, h) =
      (ids, e, λ other a. ap (λ o. g o other) (a.1 query) ∙ h other a)

  failed_commands-same :
      (other : Server) (id : ℕ)
      → other.details id ≡ server.details id
      → failed_commands other id ≡ failed_commands server id
  unfolding failed_commands
  failed_commands-same other id e = rw (e, failed_commands) refl

  group_text-same :
      (other : Server) (with_test : Bool) (fetch : List ℕ) (g : Group)
      → ((id : ℕ) → member id fetch ≡ true → other.details id ≡ server.details id)
      → group_text other with_test fetch g ≡ group_text server with_test fetch g
  unfolding group_text
  group_text-same other with_test fetch g d = elim (Bool-cases (member (latest_of g).id fetch)) [
    | inl e ↦ rw (e, failed_commands-same other (latest_of g).id (d (latest_of g).id e)) refl
    | inr e ↦ rw e refl
  ]

  failure_groups-Reads :
      (n : ℕ) (jobs : List Failed) (with_test : Bool)
      → Reads n (λ s. failure_groups s n jobs with_test)
  unfolding failure_groups
  failure_groups-Reads n jobs with_test =
      let shown = ranked (kinds with_test [] jobs) in
      let fetch = to_fetch n shown in
      (
        fetch,
        refl,
        λ other a.
            rw
              (map-same (group_text other with_test fetch) (group_text server with_test fetch)
                (λ g. group_text-same other with_test fetch g a.2) shown)
              refl,
      )

  failed_part-Reads : (n : ℕ) (jobs : List Failed) → Reads n (λ s. failed_part s n jobs)
  failed_part-Reads n [] = Reads-pure n []
  failed_part-Reads n (j ∷ jobs) =
      Reads-map n (λ text. text ∷ []) (λ s. failure_groups s n (j ∷ jobs) false)
        (failure_groups-Reads n (j ∷ jobs) false)

  side-Reads : (n : ℕ) (label : Str) (runs : List Row) → Reads n (λ s. side s n label runs)
  unfolding runs_text
  side-Reads n label [] = Reads-pure n []
  side-Reads n label (j ∷ runs) =
      let failed = map as_failed (filter has_failed (take 5 (j ∷ runs))) in
      Reads-by n (λ s. failed_part s n failed) (λ s. side s n label (j ∷ runs))
        (failed_part-Reads n failed) refl (λ other e. rw e refl)

  neighbour_summary-Reads :
      (rows : List Row) (cur n : ℕ) → Reads n (λ s. neighbour_summary s rows cur n)
  unfolding neighbour_summary
  neighbour_summary-Reads rows cur n =
      let done = done_rows cur [] rows in
      let prev = sort_by geb_id (filter (λ (j : Row). ltb j.id cur) done) in
      let nxt = sort_by leb_id (filter (λ (j : Row). ltb cur j.id) done) in
      let start = codes "Previous/next runs: " in
      Reads-then n (λ s. side s n (codes "previous") prev)
        (λ parts m s. (
          sentence start (parts ++ (side s m (codes "next") nxt).0),
          (side s m (codes "next") nxt).1,
        ))
        (side-Reads n (codes "previous") prev)
        (λ parts m.
          Reads-map m (λ more. sentence start (parts ++ more)) (λ s. side s m (codes "next") nxt)
            (side-Reads m (codes "next") nxt))

  siblings_text-Reads :
      (n gid : ℕ) (build : Str) (flavor : Option Str) (others : List Sibling) (failed : List Failed)
      → Reads n (λ s. siblings_text s n gid build flavor others failed)
  unfolding siblings_text
  siblings_text-Reads n gid build flavor others [] = Reads-pure n _
  siblings_text-Reads n gid build flavor others (j ∷ failed) =
      Reads-by n (λ s. failure_groups s n (j ∷ failed) true)
        (λ s. siblings_text s n gid build flavor others (j ∷ failed))
        (failure_groups-Reads n (j ∷ failed) true) refl (λ other e. cc)

  from_answer-Reads :
      (n job_id gid : ℕ) (build : Str) (flavor : Option Str) (answer : Option (List Sibling))
      → Reads n (λ s. from_answer s n job_id gid build flavor answer)
  from_answer-Reads n job_id gid build flavor none = Reads-pure n none
  from_answer-Reads n job_id gid build flavor (some jobs) = others _
    where
      others : (js : List Sibling) → Reads n (λ s. if_others s n gid build flavor js)
      others [] = Reads-pure n none
      others (j ∷ js) = Reads-map n some _ (siblings_text-Reads n gid build flavor (j ∷ js) _)

  in_group-Reads :
      (n job_id : ℕ) (job : Job) (gid : Option ℕ) (build : Str)
      → Reads n (λ s. in_group s n job_id job gid build)
  in_group-Reads n job_id job none build = Reads-pure n none
  in_group-Reads n job_id job (some zero) build = Reads-pure n none
  in_group-Reads n job_id job (some (suc g)) [] = Reads-pure n none
  in_group-Reads n job_id job (some (suc g)) (c ∷ build) =
      Reads-jobs n _ (λ answer s. from_answer s n job_id (suc g) (c ∷ build) job.flavor answer)
        (from_answer-Reads n job_id (suc g) (c ∷ build) job.flavor _)

  -- `run_history`, from the rows of the job
  abbrev history_from : ℕ → Job → List Row → Server → List Str × ℕ
  history_from job_id job rows s =
      let neighbours = neighbour_summary s rows job_id 0 in
      let siblings = in_group s neighbours.1 job_id job job.group_id (or_empty job.build) in
      (
        with_blank
            (line_of neighbours.0 ++ (line_of (earlier_reviews rows job_id) ++ line_of siblings.0)),
        siblings.1,
      )

  history_from-Reads :
      (job_id : ℕ) (job : Job) (rows : List Row) → Reads 0 (history_from job_id job rows)
  history_from-Reads job_id job rows =
      let lines = λ (a b : Option Str).
        with_blank (line_of a ++ (line_of (earlier_reviews rows job_id) ++ line_of b)) in
      let group =
        λ (m : ℕ) (s : Server). in_group s m job_id job job.group_id (or_empty job.build) in
      Reads-then 0 (λ s. neighbour_summary s rows job_id 0)
        (λ a m s. (lines a (group m s).0, (group m s).1)) (neighbour_summary-Reads rows job_id 0)
        (λ a m.
          Reads-map m (lines a) (group m)
            (in_group-Reads m job_id job job.group_id (or_empty job.build)))

  -- The history depends on the details of at most eight jobs: any other server that lists the same
  -- runs and jobs, and has the same details of these, gives the same history. So the three parts of it
  -- look together at the details of no more jobs than that.
  pub run_history-reads :
      (job_id : ℕ) (job : Job)
      → (ids : List ℕ) × (length ids ≤ history_max_fetches)
        × ((other : Server)
            → Agrees ids other
            → run_history other job_id job ≡ run_history server job_id job)
  unfolding run_history sibling_summary fetch_rows
  run_history-reads job_id job =
      let (ids, e, h) = history_from-Reads job_id job (fetch_rows server job_id true) in
      (
        ids,
        omega (arith, e, count-budget server job_id job),
        λ other a.
            ap (λ o. history_from job_id job (elim o [ none ↦ [] | some rows ↦ rows ]) other)
              (a.0 (rows_query job_id true))
            ∙ h other a,
      )
