-- ===== src/Shell/Session/Addresses.antt =====
-- The addresses of the jobs of HW2.3-Shell/myshell.c through a session: every operation keeps them
-- distinct and below the next one.
use kernel_programming.Prelude.{
  ℕ, ◌<◌, ◌≤◌, Bool, List, [], ◌∷◌, Option, some, none, if◌then◌else◌, arith, if_cases, ◌==◌,
}
use kernel_programming.Shell.Jobs.{
  Shell, Job, Process, WaitStatus, all_status, has_pid, change_procs, settle, keep_job, update_jobs,
  with_jobs, update_process_status, reap, replace_procs, drop_head, finish_wait, wait_job, resume,
  resume_job, resume_pgid, get_job, ResumeType, bg, fg, wait_procs,
}
use kernel_programming.Shell.Jobs.Wait.{AllElsewhere}

-- The addresses fall along the list from below `n` on.
abbrev pub IsBelow : ℕ → List Job → Type 0
IsBelow n [] = Unit {0}
IsBelow n (j ∷ rest) = (j.addr < n) × IsBelow j.addr rest

IsBelow-mono : (m n : ℕ) (jobs : List Job) → m ≤ n → IsBelow m jobs → IsBelow n jobs
IsBelow-mono m n [] p h = tt
IsBelow-mono m n (j ∷ rest) p h = (omega (arith, h.0), h.1)

pub IsBelow-AllElsewhere :
    (n addr : ℕ) (jobs : List Job) → n ≤ addr → IsBelow n jobs → AllElsewhere addr jobs
IsBelow-AllElsewhere n addr [] p h = tt
IsBelow-AllElsewhere n addr (j ∷ rest) p h =
    (omega (arith, h.0), IsBelow-AllElsewhere j.addr addr rest (omega (arith, h.0)) h.1)

-- A result that has a property, if it is there.
abbrev pub IfSome {ℓ κ} : {A : Type ℓ} → (A → Type κ) → Option A → Type κ
IfSome P none = Unit
IfSome P (some a) = P a

abbrev pub IsAddressed : Shell → Type 0
IsAddressed sh = IsBelow sh.next_addr sh.jobs

IsBelow-settle :
    (n : ℕ) (current : Option Job) (j : Job) (rest : List Job)
    → IsBelow n (j ∷ rest)
    → IsBelow n (settle current j rest).1
IsBelow-settle n current j rest h =
    if_cases (λ (r : Option Job × List Job). IsBelow n r.1) (all_status 2 j.procs) _ _
      (λ _. IsBelow-mono j.addr n rest (omega (arith, h.0)) h.1) (λ _. h)

IsBelow-update_jobs :
    (n pid : ℕ) (status : WaitStatus) (current : Option Job) (jobs : List Job)
    → IsBelow n jobs
    → IfSome (λ r. IsBelow n r.1) (update_jobs pid status current jobs)
unfolding update_jobs
IsBelow-update_jobs n pid status current [] h = tt
IsBelow-update_jobs n pid status current (j ∷ rest) h =
    if_cases (IfSome (λ r. IsBelow n r.1)) (has_pid pid j.procs) _ _
      (λ _. IsBelow-settle n current (record j { procs = change_procs pid status j.procs }) rest h)
      (λ _.
        keep (update_jobs pid status current rest)
          (IsBelow-update_jobs j.addr pid status current rest h.1))
  where
    keep :
        (r : Option (Option Job × List Job))
        → IfSome (λ r. IsBelow j.addr r.1) r
        → IfSome (λ r. IsBelow n r.1) (keep_job j r)
    keep none k = tt
    keep (some r) k = (h.0, k)

IsAddressed-with_jobs :
    (sh : Shell) (r : Option (Option Job × List Job))
    → IfSome (λ r. IsBelow sh.next_addr r.1) r
    → IfSome IsAddressed (with_jobs sh r)
IsAddressed-with_jobs sh none h = tt
IsAddressed-with_jobs sh (some r) h = h

pub IsAddressed-reap :
    (events : List (ℕ × WaitStatus)) (sh : Shell)
    → IsAddressed sh
    → IfSome IsAddressed (reap events sh)
unfolding reap update_process_status
IsAddressed-reap [] sh h = h
IsAddressed-reap ((pid, status) ∷ events) sh h =
    next (update_process_status pid status sh) (IsAddressed-reap events) (
      IsAddressed-with_jobs sh (update_jobs pid status sh.current sh.jobs)
        (IsBelow-update_jobs sh.next_addr pid status sh.current sh.jobs h))
  where
    next :
        (r : Option Shell)
        → ((sh' : Shell) → IsAddressed sh' → IfSome IsAddressed (reap events sh'))
        → IfSome IsAddressed r
        → IfSome IsAddressed (elim r [ none ↦ none | some sh' ↦ reap events sh' ])
    next none f k = tt
    next (some sh') f k = f sh' k

IsBelow-replace_procs :
    (n addr : ℕ) (procs : List Process) (jobs : List Job)
    → IsBelow n jobs
    → IsBelow n (replace_procs addr procs jobs)
IsBelow-replace_procs n addr procs [] h = tt
IsBelow-replace_procs n addr procs (j ∷ rest) h =
    if_cases (λ (j' : Job). (j'.addr < n) × IsBelow j'.addr (replace_procs addr procs rest))
      (j.addr == addr) _ _ (λ _. (h.0, IsBelow-replace_procs j.addr addr procs rest h.1))
      (λ _. (h.0, IsBelow-replace_procs j.addr addr procs rest h.1))

IsAddressed-finish_wait :
    (sh : Shell) (j : Job) (jobs : List Job)
    → IsBelow sh.next_addr jobs
    → IfSome IsAddressed (finish_wait sh j jobs)
IsAddressed-finish_wait sh j jobs h =
    if_cases (IfSome IsAddressed) (all_status 2 j.procs) _ _ (λ _. dropped jobs h) (λ _. h)
  where
    dropped :
        (jobs : List Job)
        → IsBelow sh.next_addr jobs
        → IfSome IsAddressed
            (elim (drop_head jobs) [ none ↦ none | some rest ↦ some (record sh { jobs = rest }) ])
    dropped [] k = tt
    dropped (i ∷ rest) k = IsBelow-mono i.addr sh.next_addr rest (omega (arith, k.0)) k.1

pub IsAddressed-wait_job :
    (wait : ℕ → WaitStatus) (j : Job) (sh : Shell)
    → IsAddressed sh
    → IfSome IsAddressed (wait_job wait j sh)
unfolding wait_job
IsAddressed-wait_job wait j sh h =
    let procs = wait_procs wait j.procs in
    IsAddressed-finish_wait (record sh { terminal = sh.shell_pid }) (record j { procs = procs })
      (replace_procs j.addr procs sh.jobs)
      (IsBelow-replace_procs sh.next_addr j.addr procs sh.jobs h)

IsAddressed-resume_job :
    (wait : ℕ → WaitStatus) (type : ResumeType) (sh : Shell) (j : Option Job)
    → IsAddressed sh
    → IfSome IsAddressed (resume_job wait type sh j)
IsAddressed-resume_job wait type sh none h = tt
IsAddressed-resume_job wait bg sh (some j) h = IsBelow-replace_procs sh.next_addr j.addr _ sh.jobs h
IsAddressed-resume_job wait fg sh (some j) h =
    IsAddressed-wait_job wait _ _ (IsBelow-replace_procs sh.next_addr j.addr _ sh.jobs h)

pub IsAddressed-resume :
    (kill_ok : ℕ → Bool) (wait : ℕ → WaitStatus) (arg : Option ℕ) (type : ResumeType) (sh : Shell)
    → IsAddressed sh
    → IfSome IsAddressed (resume kill_ok wait arg type sh)
unfolding resume
IsAddressed-resume kill_ok wait arg type sh h = of_pgid (resume_pgid sh arg)
  where
    of_pgid :
        (r : Option ℕ)
        → IfSome IsAddressed (elim r [
          | none ↦ some sh
          | some pgid ↦
              if kill_ok pgid then resume_job wait type sh (get_job pgid sh.jobs) else some sh
        ])
    of_pgid none = h
    of_pgid (some pgid) =
        if_cases (IfSome IsAddressed) (kill_ok pgid) _ _
          (λ _. IsAddressed-resume_job wait type sh _ h) (λ _. h)
