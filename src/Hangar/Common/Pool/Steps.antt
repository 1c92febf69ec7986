-- ===== src/Hangar/Common/Pool/Steps.antt =====
-- pkg/hangar/common.go: the steps of the workers, one by one.
use image_tools.Hangar.Common.Pool.{
  Pool, Work, hand_over, let_go, finish_object, stop_worker, close_channel, by_loop, by_worker,
  by_wait,
}
use image_tools.Hangar.Layers.Counts.{occurrences, occurrences-append}
use image_tools.Prelude.{
  ℕ, suc, ◌+◌, ◌<◌, refl, sym, ◌∙◌, List, ◌≡◌, Bool, true, false, ◌||◌, [], ◌∷◌, length,
  length-append, cons-ne-nil, Text, arith,
}

-- How often a line stands among all objects of a pool.
unfoldable pub count_all : Text → Pool → ℕ
unfolding occurrences
count_all k p =
    occurrences k p.pending
    + occurrences k p.busy
    + occurrences k p.handled
    + occurrences k p.dropped

bit : Bool → ℕ
bit true = 0
bit false = 1

-- What every step makes smaller.
unfoldable pub weight : Pool → ℕ
unfolding bit
weight p =
    length p.pending
    + length p.pending
    + length p.busy
    + length p.busy
    + p.idle
    + bit p.is_closed
    + bit p.is_canceled

-- Objects are let go by a canceled context only; a worker returns only after the end or the
-- cancellation; and the channel is closed only after all objects.
pub record IsOrderly (p : Pool) : Type 0 where
  pub let_go_late : p.is_canceled ≡ false → p.dropped ≡ []
  pub stopped_late : p.idle + length p.busy ≡ 0 → (p.is_closed || p.is_canceled) ≡ true
  pub closed_late : p.is_closed ≡ true → p.pending ≡ []

pub count_all-Work : (k : Text) (p q : Pool) → Work p q → count_all k q ≡ count_all k p
unfolding count_all occurrences
count_all-Work k p q (by_loop (hand_over x rest n ep ei eq)) = rw (eq, ep) (ground arith)
count_all-Work k p q (by_loop (let_go x rest ep ec eq)) = rw (eq, ep) (ground arith)
count_all-Work k p q (by_worker (finish_object xs x ys eb eq)) =
    rw (eq, eb) (ground (arith, occurrences-append k xs ys, occurrences-append k xs (x ∷ ys)))
count_all-Work k p q (by_worker (stop_worker n ei ec eq)) = rw eq
count_all-Work k p q (by_wait (close_channel ep ec eq)) = rw eq

pub weight-Work : (p q : Pool) → Work p q → weight q < weight p
unfolding weight
weight-Work p q (by_loop (hand_over x rest n ep ei eq)) = rw (eq, ep, ei) (omega arith)
weight-Work p q (by_loop (let_go x rest ep ec eq)) = rw (eq, ep) (omega arith)
weight-Work p q (by_worker (finish_object xs x ys eb eq)) =
    rw (eq, eb) (omega (arith, length-append xs ys, length-append xs (x ∷ ys)))
weight-Work p q (by_worker (stop_worker n ei ec eq)) = rw (eq, ei) (omega arith)
weight-Work p q (by_wait (close_channel ep ec eq)) = rw (eq, ec, ep) (omega arith)

-- A channel that has an object to be sent is open.
pub IsOrderly-pending :
    {A : Type 0} (p : Pool) (x : Text) (rest : List Text)
    → p.pending ≡ x ∷ rest
    → IsOrderly p
    → p.is_closed ≡ true
    → A
IsOrderly-pending p x rest ep i closed = absurd (cons-ne-nil x rest (sym ep ∙ i.closed_late closed))

IsOrderly-hand_over :
    (p : Pool) (x : Text) (rest : List Text) (n : ℕ)
    → p.pending ≡ x ∷ rest
    → p.idle ≡ suc n
    → IsOrderly p
    → IsOrderly (record p { pending = rest; idle = n; busy = x ∷ p.busy })
IsOrderly-hand_over p x rest n ep ei i = record {
  let_go_late = i.let_go_late;
  stopped_late = λ none_left. absurd (omega arith);
  closed_late = IsOrderly-pending p x rest ep i;
}

pub IsOrderly-Work : (p q : Pool) → Work p q → IsOrderly p → IsOrderly q
IsOrderly-Work p q (by_loop (hand_over x rest n ep ei eq)) i =
    rw eq (IsOrderly-hand_over p x rest n ep ei i)
IsOrderly-Work p q (by_loop (let_go x rest ep ec eq)) i = rw eq record {
  let_go_late = λ running. ground arith;
  stopped_late = i.stopped_late;
  closed_late = IsOrderly-pending p x rest ep i;
}
IsOrderly-Work p q (by_worker (finish_object xs x ys eb eq)) i = rw eq record {
  let_go_late = i.let_go_late;
  stopped_late = λ none_left. absurd (omega arith);
  closed_late = i.closed_late;
}
IsOrderly-Work p q (by_worker (stop_worker n ei ec eq)) i = rw eq record {
  let_go_late = i.let_go_late;
  stopped_late = λ none_left. ec;
  closed_late = i.closed_late;
}
IsOrderly-Work p q (by_wait (close_channel ep ec eq)) i = rw eq record {
  let_go_late = i.let_go_late;
  stopped_late = λ none_left. refl;
  closed_late = λ closed. ep;
}
