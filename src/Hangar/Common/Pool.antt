-- ===== src/Hangar/Common/Pool.antt =====
-- pkg/hangar/common.go: the workers that take objects from a channel, as steps that interleave.
pub mod Steps
pub mod Laws
use image_tools.Hangar.Common.{CommonOptions, worker_count}
use image_tools.Prelude.{ℕ, suc, ◌≡◌, Bool, true, false, ◌||◌, List, [], ◌∷◌, ◌++◌, Text}

-- The objects that are still to be sent, the workers that wait at the channel, the objects that the
-- other workers handle, those that were handled, and those that were not sent, of a canceled context.
pub record Pool : Type 0 where
  pub pending : List Text
  pub idle : ℕ
  pub busy : List Text
  pub handled : List Text
  pub dropped : List Text
  pub is_closed : Bool
  pub is_canceled : Bool

-- `initWorker`, and the objects that the loop will send.
unfoldable pub init_worker : CommonOptions → List Text → Pool
unfolding worker_count
init_worker o objects = record {
  pending = objects;
  idle = worker_count o;
  busy = [];
  handled = [];
  dropped = [];
  is_closed = false;
  is_canceled = false;
}

-- `handleObject`: a worker takes the object, or a canceled context lets it go.
pub data HandleObject (p q : Pool) : Type 0 where
  hand_over :
      (x : Text) (rest : List Text) (n : ℕ)
      → p.pending ≡ x ∷ rest
      → p.idle ≡ suc n
      → q ≡ record p { pending = rest; idle = n; busy = x ∷ p.busy }
      → HandleObject p q
  let_go :
      (x : Text) (rest : List Text)
      → p.pending ≡ x ∷ rest
      → p.is_canceled ≡ true
      → q ≡ record p { pending = rest; dropped = x ∷ p.dropped }
      → HandleObject p q

-- `workerFunc`: a worker is done with its object, or it returns, when the channel is closed or the
-- context is canceled.
pub data WorkerFunc (p q : Pool) : Type 0 where
  finish_object :
      (xs : List Text) (x : Text) (ys : List Text)
      → p.busy ≡ xs ++ x ∷ ys
      → q ≡ record p { idle = suc p.idle; busy = xs ++ ys; handled = x ∷ p.handled }
      → WorkerFunc p q
  stop_worker :
      (n : ℕ)
      → p.idle ≡ suc n
      → (p.is_closed || p.is_canceled) ≡ true
      → q ≡ record p { idle = n }
      → WorkerFunc p q

-- `waitWorkers` closes the channel, when all objects were sent or let go.
pub data WaitWorkers (p q : Pool) : Type 0 where
  close_channel :
      p.pending ≡ [] → p.is_closed ≡ false → q ≡ record p { is_closed = true } → WaitWorkers p q

-- What the program does by itself.
pub data Work (p q : Pool) : Type 0 where
  by_loop : HandleObject p q → Work p q
  by_worker : WorkerFunc p q → Work p q
  by_wait : WaitWorkers p q → Work p q

-- A step, or the cancellation of the context.
pub data Step (p q : Pool) : Type 0 where
  work : Work p q → Step p q
  cancel : p.is_canceled ≡ false → q ≡ record p { is_canceled = true } → Step p q

-- A run, with the number of its steps.
pub data Run (p : Pool) : ℕ → Pool → Type 0 where
  here : Run p 0 p
  next : {n : ℕ} {q r : Pool} → Run p n q → Step q r → Run p (suc n) r

-- `waitWorkers` returns.
abbrev pub IsDone : Pool → Type 0
IsDone p = (p.pending ≡ []) × (p.idle ≡ 0) × (p.busy ≡ []) × (p.is_closed ≡ true)
