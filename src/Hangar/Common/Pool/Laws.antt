-- ===== src/Hangar/Common/Pool/Laws.antt =====
-- pkg/hangar/common.go: whole runs of the workers.
use image_tools.Hangar.Common.{CommonOptions, worker_count}
use image_tools.Hangar.Common.Pool.{
  Pool, Work, Step, Run, IsDone, init_worker, hand_over, let_go, finish_object, stop_worker,
  close_channel, by_loop, by_worker, by_wait, work, cancel, here, next,
}
use image_tools.Hangar.Common.Pool.Steps.{
  count_all, weight, IsOrderly, count_all-Work, weight-Work, IsOrderly-Work, IsOrderly-pending,
}
use image_tools.Hangar.Layers.Counts.{occurrences}
use image_tools.Prelude.{
  ℕ, zero, suc, ◌+◌, ◌<◌, ◌≤◌, ◌≡◌, refl, ◌∙◌, Bool, true, false, List, [], ◌∷◌, ◌⊎◌, inl, inr,
  length, Text, arith, ap,
}

count_all-Step : (k : Text) (p q : Pool) → Step p q → count_all k q ≡ count_all k p
unfolding count_all
count_all-Step k p q (work w) = count_all-Work k p q w
count_all-Step k p q (cancel running eq) = rw eq

weight-Step : (p q : Pool) → Step p q → weight q < weight p
unfolding weight
weight-Step p q (work w) = weight-Work p q w
weight-Step p q (cancel running eq) = rw (eq, running) (omega arith)

IsOrderly-Step : (p q : Pool) → Step p q → IsOrderly p → IsOrderly q
IsOrderly-Step p q (work w) i = IsOrderly-Work p q w i
IsOrderly-Step p q (cancel running eq) i = rw eq record {
  let_go_late = λ never. ground arith;
  stopped_late = λ none_left. ground arith;
  closed_late = i.closed_late;
}

count_all-Run : (k : Text) (p q : Pool) (n : ℕ) → Run p n q → count_all k q ≡ count_all k p
count_all-Run k p q n here = refl
count_all-Run k p q n (next {n = m} {q = r} before s) =
    count_all-Step k r q s ∙ count_all-Run k p r m before

weight-Run : (p q : Pool) (n : ℕ) → Run p n q → n + weight q ≤ weight p
weight-Run p q n here = omega arith
weight-Run p q n (next {n = m} {q = r} before s) =
    omega (arith, weight-Step r q s, weight-Run p r m before)

IsOrderly-Run : (p q : Pool) (n : ℕ) → Run p n q → IsOrderly p → IsOrderly q
IsOrderly-Run p q n here i = i
IsOrderly-Run p q n (next {n = m} {q = r} before s) i =
    IsOrderly-Step r q s (IsOrderly-Run p r m before i)

IsOrderly-init :
    (o : CommonOptions) (objects : List Text)
    → 0 < worker_count o
    → IsOrderly (init_worker o objects)
unfolding init_worker
IsOrderly-init o objects some_worker = record {
  let_go_late = λ running. refl;
  stopped_late = λ none_left. absurd (omega arith);
  closed_late = λ closed. ground arith;
}

-- With at least one worker and a context that was not canceled, the workers that ended handled every
-- object exactly as often as it was among those to send, and no other, in whichever order the steps
-- came.
pub Run-handled :
    (o : CommonOptions) (objects : List Text) (n : ℕ) (q : Pool)
    → 0 < worker_count o
    → Run (init_worker o objects) n q
    → IsDone q
    → q.is_canceled ≡ false
    → (k : Text) → occurrences k q.handled ≡ occurrences k objects
unfolding count_all init_worker occurrences
Run-handled o objects n q some_worker r (all_sent, all_left, all_done, closed) running k = omega (
  arith,
  count_all-Run k (init_worker o objects) q n r,
  ap (occurrences k) all_sent,
  ap (occurrences k) all_done,
  ap (occurrences k) (i.let_go_late running),
)
  where
    i : IsOrderly q
    i = IsOrderly-Run (init_worker o objects) q n r (IsOrderly-init o objects some_worker)

-- Every run of the workers ends: it has at most two steps for an object, one for a worker, one for the
-- end of the channel and one for the cancellation of the context.
pub Run-steps :
    (o : CommonOptions) (objects : List Text) (n : ℕ) (q : Pool)
    → Run (init_worker o objects) n q
    → n ≤ length objects + length objects + worker_count o + 2
unfolding init_worker weight
Run-steps o objects n q r = omega (arith, weight-Run (init_worker o objects) q n r)

Work-busy : (p : Pool) (x : Text) (ys : List Text) → p.busy ≡ x ∷ ys → (q : Pool) × Work p q
Work-busy p x ys eb = (_, by_worker (finish_object [] x ys eb refl))

Work-pending :
    (p : Pool) (x : Text) (rest : List Text) (n : ℕ) (ys : List Text)
    → p.pending ≡ x ∷ rest
    → p.idle ≡ n
    → p.busy ≡ ys
    → IsOrderly p
    → (b : Bool) → p.is_canceled ≡ b
    → (q : Pool) × Work p q
Work-pending p x rest n ys ep ei eb i true ec = (_, by_loop (let_go x rest ep ec refl))
Work-pending p x rest (suc n) ys ep ei eb i false ec = (_, by_loop (hand_over x rest n ep ei refl))
Work-pending p x rest zero (y ∷ ys) ep ei eb i false ec = Work-busy p y ys eb
Work-pending p x rest zero [] ep ei eb i false ec =
    IsOrderly-pending p x rest ep i
      (ground (arith, i.stopped_late (omega (arith, ei, ap length eb))))

Work-empty :
    (p : Pool) (n : ℕ) (ys : List Text)
    → p.pending ≡ []
    → p.idle ≡ n
    → p.busy ≡ ys
    → (b : Bool) → p.is_closed ≡ b
    → IsDone p ⊎ ((q : Pool) × Work p q)
Work-empty p n ys ep ei eb false ec = inr (_, by_wait (close_channel ep ec refl))
Work-empty p n (y ∷ ys) ep ei eb true ec = inr (Work-busy p y ys eb)
Work-empty p (suc n) [] ep ei eb true ec = inr (_, by_worker (stop_worker n ei (rw ec) refl))
Work-empty p zero [] ep ei eb true ec = inl (ep, ei, eb, ec)

IsOrderly-progress :
    (p : Pool) (xs : List Text) → p.pending ≡ xs → IsOrderly p → IsDone p ⊎ ((q : Pool) × Work p q)
IsOrderly-progress p (x ∷ rest) ep i =
    inr (Work-pending p x rest p.idle p.busy ep refl refl i p.is_canceled refl)
IsOrderly-progress p [] ep i = Work-empty p p.idle p.busy ep refl refl p.is_closed refl

-- With a worker the program is never stuck: in every state that a run reaches, either all objects were
-- sent or let go, no worker is left and the channel is closed, or a next step of the program exists.
pub Run-progress :
    (o : CommonOptions) (objects : List Text) (n : ℕ) (p : Pool)
    → 0 < worker_count o
    → Run (init_worker o objects) n p
    → IsDone p ⊎ ((q : Pool) × Work p q)
Run-progress o objects n p some_worker r =
    IsOrderly-progress p p.pending refl
      (IsOrderly-Run (init_worker o objects) p n r (IsOrderly-init o objects some_worker))
