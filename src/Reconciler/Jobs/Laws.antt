-- ===== src/Reconciler/Jobs/Laws.antt =====
-- What the steps on jobs have seen when the next step begins.
use scale_operator.Prelude.{
  ◌≡◌, refl, ◌≢◌, Bool, true, false, Option, none, some, List, [], ◌∷◌, arith, All, ◌==◌, ==_iff,
  nat_eq, string_eq, int_eq,
}
use scale_operator.Reconciler.{Get, found, not_found, get_fails}
use scale_operator.Reconciler.Steps.{proceed, Step, checked, then_requeue}
use scale_operator.Reconciler.Steps.Rules.{then_requeue_stops, next-proceed}
use scale_operator.Reconciler.Jobs.{
  Kube, ensure, reconcile_got_job, reconcile_owned_job, reconcile_job, tagged, cleanup_job,
  cleanup_loop,
}

module _ {S E O : Type 0} (kube : Kube S E O) where
  -- The job is there and as many of its pods have succeeded as it asks for.
  abbrev pub IsDone : O → S → Type 0
  IsDone job s =
      (o : O) × (kube.client.get (kube.set_owner job).1 s ≡ found o)
      × (kube.succeeded o ≡ kube.completions (kube.set_owner job).1)

  abbrev pub IsAbsent : Option O → S → Type 0
  IsAbsent none s = ⊥
  IsAbsent (some job) s = kube.client.get job s ≡ not_found

  abbrev pub AllDone : List O → S → Type 0
  AllDone jobs s = All (λ job. IsDone job s) jobs

  got_job-proceeds :
      (desired : O) (g : Get E O) (s s' : S)
      → reconcile_got_job kube desired g s ≡ (proceed, s')
      → (s' ≡ s) × (o : O) × (g ≡ found o) × (kube.succeeded o ≡ kube.completions desired)
  unfolding reconcile_got_job then_requeue
  got_job-proceeds desired (get_fails err) s s' h = cc
  got_job-proceeds desired not_found s s' h =
      absurd (then_requeue_stops 5 (kube.client.create desired s) s' h)
  got_job-proceeds desired (found o) s s' h =
      let done : (kube.succeeded o == kube.completions desired) ≡ true = ground arith in
      (ground arith, o, refl, (==_iff _ _).0 done)

  owned_job-proceeds :
      (d : Option E × O) (s s' : S)
      → reconcile_owned_job kube d s ≡ (proceed, s')
      → (s' ≡ s)
        × (o : O) × (kube.client.get d.1 s ≡ found o)
        × (kube.succeeded o ≡ kube.completions d.1)
  unfolding reconcile_owned_job
  owned_job-proceeds (some err, desired) s s' h = cc
  owned_job-proceeds (none, desired) s s' h =
      got_job-proceeds desired (kube.client.get desired s) s s' h

  -- A step on a job goes on only where the job is done, and has made no request but the read.
  pub reconcile_job-proceeds :
      (job : O) (s s' : S) → reconcile_job kube job s ≡ (proceed, s') → (s' ≡ s) × IsDone job s
  unfolding reconcile_job
  reconcile_job-proceeds job s s' h =
      let (same, o, got, done) = owned_job-proceeds (kube.set_owner job) s s' h in
      (same, (o, got, done))

  cleanup_job_seen :
      (job : O) (g : Get E O) (rest : Bool → Step E S) (s s' : S)
      → ((t : S) → rest true t ≢ (proceed, s'))
      → cleanup_job kube job g rest true s ≢ (proceed, s')
  unfolding cleanup_job
  cleanup_job_seen job (get_fails err) rest s s' stops h = cc
  cleanup_job_seen job not_found rest s s' stops h = stops s h
  cleanup_job_seen job (found o) rest s s' stops h =
      let r = checked (ensure kube (tagged kube job) s) in
      stops r.1 (next-proceed (rest true) r.0 r.1 s' h).1

  -- Once a job has been found the cleanup does not go on.
  cleanup_seen : (jobs : List (Option O)) (s s' : S) → cleanup_loop kube jobs true s ≢ (proceed, s')
  unfolding cleanup_loop
  cleanup_seen [] s s' h = cc
  cleanup_seen (none ∷ jobs) s s' h = cc
  cleanup_seen (some job ∷ jobs) s s' h =
      cleanup_job_seen job (kube.client.get job s) (cleanup_loop kube jobs) s s'
        (λ t. cleanup_seen jobs t s') h

  cleanup_job-proceeds :
      (job : O) (g : Get E O) (jobs : List (Option O)) (s s' : S)
      → cleanup_job kube job g (cleanup_loop kube jobs) false s ≡ (proceed, s')
      → (g ≡ not_found) × (cleanup_loop kube jobs false s ≡ (proceed, s'))
  unfolding cleanup_job
  cleanup_job-proceeds job (get_fails err) jobs s s' h = cc
  cleanup_job-proceeds job not_found jobs s s' h = (refl, h)
  cleanup_job-proceeds job (found o) jobs s s' h =
      let r = checked (ensure kube (tagged kube job) s) in
      absurd (cleanup_seen jobs r.1 s' (next-proceed (cleanup_loop kube jobs true) r.0 r.1 s' h).1)

  -- The cleanup goes on only where none of the jobs is left, and has made no request but the reads.
  pub cleanup_loop-proceeds :
      (jobs : List (Option O)) (s s' : S)
      → cleanup_loop kube jobs false s ≡ (proceed, s')
      → (s' ≡ s) × All (λ job. IsAbsent job s) jobs
  unfolding cleanup_loop
  cleanup_loop-proceeds [] s s' h = (ground arith, tt)
  cleanup_loop-proceeds (none ∷ jobs) s s' h = cc
  cleanup_loop-proceeds (some job ∷ jobs) s s' h =
      let (gone, rest) = cleanup_job-proceeds job (kube.client.get job s) jobs s s' h in
      let (same, others) = cleanup_loop-proceeds jobs s s' rest in (same, (gone, others))
