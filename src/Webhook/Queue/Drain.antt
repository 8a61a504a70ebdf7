-- ===== src/Webhook/Queue/Drain.antt =====
-- What a poll leaves in the queue.
use mathlib.Core.Bool.{false≢true}
use mathlib.Core.Path.{subst}
use nadbooks_backend.Prelude.{
  ℕ, ◌<◌, String, true, false, ◌==◌, ◌≡◌, ◌≢◌, refl, ◌⊎◌, inl, inr, List, [], ◌∷◌, leb, arith,
  Bool-cases, eq_iff, sym, ◌∙◌,
}
use nadbooks_backend.Effects.{Env}
use nadbooks_backend.PriceFeed.{Markets}
use nadbooks_backend.Payments.Gateway.{Gateway}
use nadbooks_backend.Webhook.Queue.{
  Job, Queue, due_jobs, remove_job, run_job, run_jobs, process_queue,
}

abbrev pub All : {A : Type 0} → (A → Type 0) → List A → Type 0
All P [] = Unit {0}
All P (x ∷ xs) = P x × All P xs

-- One of the jobs has this id.
abbrev pub Named : String → List Job → Type 0
Named id [] = ⊥
Named id (d ∷ ds) = (d.id ≡ id) ⊎ Named id ds

-- The job is later than `now`, or it is one of `ds`.
abbrev pub Covered : ℕ → List Job → Job → Type 0
Covered now ds j = (now < j.score) ⊎ Named j.id ds

abbrev pub IsLater : ℕ → Job → Type 0
IsLater now j = now < j.score

-- The jobs that are left when those of `ds` have been removed one by one.
unfoldable pub remove_all : List Job → List Job → List Job
remove_all [] js = js
remove_all (d ∷ ds) js = remove_all ds (remove_job d.id js)

Covered-more :
    (now : ℕ) (d : Job) (ds js : List Job) → All (Covered now ds) js → All (Covered now (d ∷ ds)) js
Covered-more now d ds [] h = tt
Covered-more now d ds (j ∷ js) (inl late, h) = (inl late, Covered-more now d ds js h)
Covered-more now d ds (j ∷ js) (inr named, h) = (inr (inr named), Covered-more now d ds js h)

due_jobs-due :
    (now : ℕ) (j : Job) (js : List Job)
    → leb j.score now ≡ true
    → due_jobs now (j ∷ js) ≡ j ∷ due_jobs now js
unfolding due_jobs
due_jobs-due now j js due = rw due

due_jobs-late :
    (now : ℕ) (j : Job) (js : List Job)
    → leb j.score now ≡ false
    → due_jobs now (j ∷ js) ≡ due_jobs now js
unfolding due_jobs
due_jobs-late now j js late = rw late

due_jobs-Covered : (now : ℕ) (js : List Job) → All (Covered now (due_jobs now js)) js
due_jobs-Covered now [] = tt
due_jobs-Covered now (j ∷ js) = elim (Bool-cases (leb j.score now)) [
  | inl due ↦
      subst (λ ds. All (Covered now ds) (j ∷ js)) (sym (due_jobs-due now j js due))
        (inr (inl refl), Covered-more now j (due_jobs now js) js (due_jobs-Covered now js))
  | inr late ↦
      subst (λ ds. All (Covered now ds) (j ∷ js)) (sym (due_jobs-late now j js late))
        (inl (ground arith), due_jobs-Covered now js)
]

Covered-other :
    (now : ℕ) (d : Job) (ds : List Job) (j : Job)
    → j.id ≢ d.id
    → Covered now (d ∷ ds) j
    → Covered now ds j
Covered-other now d ds j other (inl late) = inl late
Covered-other now d ds j other (inr (inl same)) = absurd (other (sym same))
Covered-other now d ds j other (inr (inr named)) = inr named

remove_job-Covered :
    (now : ℕ) (d : Job) (ds js : List Job)
    → All (Covered now (d ∷ ds)) js
    → All (Covered now ds) (remove_job d.id js)
unfolding remove_job
remove_job-Covered now d ds [] h = tt
remove_job-Covered now d ds (j ∷ js) (here, h) = elim (Bool-cases (j.id == d.id)) [
  | inl same ↦ rw same (remove_job-Covered now d ds js h)
  | inr other ↦ rw other (
    Covered-other now d ds j (λ e. false≢true (sym other ∙ (eq_iff _ _).1 e)) here,
    remove_job-Covered now d ds js h,
  )
]

All-IsLater : (now : ℕ) (xs : List Job) → All (Covered now []) xs → All (IsLater now) xs
All-IsLater now [] g = tt
All-IsLater now (x ∷ xs) (inl late, g) = (late, All-IsLater now xs g)
All-IsLater now (x ∷ xs) (inr none_of, g) = absurd none_of

remove_all-IsLater :
    (now : ℕ) (ds js : List Job) → All (Covered now ds) js → All (IsLater now) (remove_all ds js)
unfolding remove_all
remove_all-IsLater now [] js h = All-IsLater now js h
remove_all-IsLater now (d ∷ ds) js h =
    remove_all-IsLater now ds (remove_job d.id js) (remove_job-Covered now d ds js h)

module _ ⦃env : Env⦄ ⦃gateway : Gateway⦄ ⦃markets : Markets⦄ where
  run_jobs-jobs : (ds : List Job) (q : Queue) → (run_jobs ds q).jobs ≡ remove_all ds q.jobs
  unfolding run_jobs run_job remove_all
  run_jobs-jobs [] q = refl
  run_jobs-jobs (d ∷ ds) q = run_jobs-jobs ds (run_job d q)

  -- When a poll that finds no other at work returns, every job whose time had come has been taken
  -- off the queue, whether it succeeded or threw, and the next poll is let in.
  pub process_queue_drains :
      (q : Queue)
      → q.is_processing ≡ false
      → All (IsLater (env.clock q.world.step)) (process_queue q).jobs
        × ((process_queue q).is_processing ≡ false)
  unfolding process_queue
  process_queue_drains q free = rw free (
    rw (run_jobs-jobs _ _)
        (remove_all-IsLater _ _ q.jobs (due_jobs-Covered (env.clock q.world.step) q.jobs)),
    refl,
  )
