-- ===== src/Tests/Pools.antt =====
-- A run of one worker over one object, step by step.
use image_tools.Hangar.Common.{CommonOptions, worker_count}
use image_tools.Hangar.Common.Pool.{
  Pool, Work, Run, IsDone, init_worker, hand_over, finish_object, stop_worker, close_channel,
  by_loop, by_worker, by_wait, work, here, next,
}
use image_tools.Hangar.Common.Pool.Laws.{Run-handled, Run-steps, Run-progress}
use image_tools.Hangar.Layers.Counts.{occurrences}
use image_tools.Prelude.{◌≤◌, ◌≡◌, refl, ◌⊎◌, true, false, List, [], ◌∷◌, Text, codes, arith}

abbrev one_worker : CommonOptions
one_worker = record { images = []; arch = []; os = []; variant = []; workers = 1 }

abbrev one_object : List Text
one_object = codes "nginx" ∷ []

-- The worker took the object.
abbrev taken : Pool
taken = record {
  pending = [];
  idle = 0;
  busy = one_object;
  handled = [];
  dropped = [];
  is_closed = false;
  is_canceled = false;
}

abbrev ended : Pool
ended = record taken { busy = []; handled = one_object; is_closed = true }

taken-Run : Run (init_worker one_worker one_object) 1 taken
unfolding init_worker
taken-Run = next here (work (by_loop (hand_over (codes "nginx") [] 0 refl refl refl)))

ended-Run : Run (init_worker one_worker one_object) 4 ended
unfolding init_worker
ended-Run =
    next
      (next (next taken-Run (work (by_wait (close_channel refl refl refl))))
        (work (by_worker (finish_object [] (codes "nginx") [] refl refl))))
      (work (by_worker (stop_worker 0 refl refl refl)))

Run-handled_example :
    occurrences (codes "nginx") ended.handled ≡ occurrences (codes "nginx") one_object
unfolding worker_count
Run-handled_example =
    Run-handled one_worker one_object 4 ended (omega arith) ended-Run (refl, refl, refl, refl) refl
      (codes "nginx")

Run-steps_example : 4 ≤ 5
unfolding worker_count
Run-steps_example = Run-steps one_worker one_object 4 ended ended-Run

Run-progress_example : IsDone taken ⊎ ((q : Pool) × Work taken q)
unfolding worker_count
Run-progress_example = Run-progress one_worker one_object 1 taken (omega arith) taken-Run
