-- ===== src/Tests/Jobs.antt =====
-- A copy job that is asked for, and served.
use chess_rts.Base.{◌≡◌, ◌≢◌, refl, Bool, none, [], ◌∷◌, ◌++◌, arith, update}
use chess_rts.Base.Int.{pos}
use chess_rts.Transfer.{Copy, filled, serve_job, fault}
use chess_rts.Transfer.Shared.{Jobs, claimed, with_job, JobReach, start, later, claim, publish}
use chess_rts.Transfer.Shared.Job.{ended_jobs}
use chess_rts.Transfer.Shared.Each.{pending, published_ended}
use chess_rts.Tests.{whole, some_globals, a_job}

abbrev no_jobs : Jobs whole
no_jobs = record {
  globals = record some_globals { transfer_ring = λ _. record a_job { status = pos 0 } };
  filling = none;
  published = λ _. [];
  ended = λ _. [];
}

abbrev a_copy : Copy
a_copy = record { src = 20; dst = 21; size = 64; t_sem = 22; sig_val = 1 }

-- Job 3 is claimed, and then filled for window 2.
abbrev one_asked : Jobs whole
one_asked = record no_jobs {
  globals =
      with_job 3 (filled 2 a_copy)
        (with_job 3 (claimed (no_jobs.globals.transfer_ring 3)) no_jobs.globals);
  published = update no_jobs.published 3 ([] ++ filled 2 a_copy ∷ []);
}

JobReach-one : JobReach one_asked
JobReach-one =
    later
      (later (start {s = no_jobs} (λ i. refl) refl (λ i. refl) (λ i. refl))
        (claim {i = 3} refl refl))
      (publish {i = 3} 2 a_copy refl (omega arith))

published_ended_example :
    (filled 2 a_copy ∷ [] ≡ ended_jobs [] ++ pending (one_asked.globals.transfer_ring 3))
    × ((timeout : Bool) → pos 2 ≡ pos 2 → (serve_job timeout 3 one_asked.globals).served ≢ fault)
published_ended_example = published_ended {s = one_asked} JobReach-one 3
