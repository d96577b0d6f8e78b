-- ===== src/Common/Async.antt =====
-- Asynchronous code: a chain of handlers, each of which issues one operation and leaves the rest to the
-- handler of its completion. It models no code of its own; the parts that talk to sockets and to
-- services are written with it.
use ezbake_common_cpp.Common.Result.{Exception}
use ezbake_common_cpp.Common.{
  ◌≡◌, ◌≢◌, ◌⊎◌, inl, inr, refl, List, [], ◌∷◌, ◌++◌, ℕ, suc, length, ap,
}

-- `call a rest` invokes the principal's callback with `a` and goes on, `wait op k` issues `op` and
-- leaves its completion to `k`, `both` is a handler that is invoked twice, each time with a chain of its
-- own, and `raised` is an exception that leaves a handler.
pub data Async {Op : Type 0} (Reply : Op → Type 0) (A : Type 0) : Type 0 where
  finished crashed : Async Reply A
  raised : Exception → Async Reply A
  call : A → Async Reply A → Async Reply A
  wait : (op : Op) → (Reply op → Async Reply A) → Async Reply A
  both : Async Reply A → Async Reply A → Async Reply A

-- How the handlers came to an end.
pub data Ending : Type 0 where
  completed aborted : Ending
  escaped : Exception → Ending

-- Both chains completed, or one of them did not.
abbrev pub both_end : Ending → Ending → Ending
both_end completed ending = ending
both_end aborted ending = aborted
both_end (escaped e) ending = escaped e

-- The world after a run, what the callback was invoked with, and how it ended.
pub record Run (S A : Type 0) : Type 0 where
  pub world : S
  pub calls : List A
  pub ending : Ending

module _ {Op : Type 0} {Reply : Op → Type 0} {S A : Type 0}
    (step : S → (op : Op) → S × Reply op) where
  -- Each operation that is issued completes as the world says, those of the first of two chains first.
  unfoldable pub run : Async Reply A → S → Run S A
  run finished s = record { world = s; calls = []; ending = completed }
  run crashed s = record { world = s; calls = []; ending = aborted }
  run (raised e) s = record { world = s; calls = []; ending = escaped e }
  run (call a rest) s =
      let after = run rest s in
      record { world = after.world; calls = a ∷ after.calls; ending = after.ending }
  run (wait op k) s = run (k (step s op).1) (step s op).0
  run (both p q) s =
      let first = run p s in
      let second = run q first.world in
      record {
        world = second.world;
        calls = first.calls ++ second.calls;
        ending = both_end first.ending second.ending;
      }

-- The principal's own callback, which is all that is left to do.
abbrev pub answer : {Op : Type 0} {Reply : Op → Type 0} {A : Type 0} → A → Async Reply A
answer a = call a finished

-- The callback was invoked once, with this.
abbrev pub Answers : {S A : Type 0} → Run S A → A → Type 0
Answers r a = (r.calls ≡ a ∷ []) × (r.ending ≡ completed)

-- The callback was called once, and no exception left a handler.
abbrev pub Once : {S A : Type 0} → Run S A → Type 0
Once {A = A} r = (a : A) × (r.calls ≡ a ∷ []) × (r.ending ≡ completed)

-- As far as the operations complete in a way that is `Good`, the callback is called once and last on
-- the first chain, but for exceptions; that there is a second chain is a proof of `Twice`.
abbrev pub Settles :
    {Op : Type 0} {Reply : Op → Type 0} {A : Type 0} (Good : (op : Op) → Reply op → Type 0)
    (Twice : Type 0)
    → Async Reply A
    → Type 0
Settles Good Twice finished = ⊥
Settles Good Twice crashed = Unit
Settles Good Twice (raised e) = Unit
Settles Good Twice (call a rest) = rest ≡ finished
Settles {Reply = Reply} Good Twice (wait op k) =
    (r : Reply op) → Good op r → Settles Good Twice (k r)
Settles Good Twice (both p q) = Twice × Settles Good Twice p

-- The callback was called once, or else the handlers did not complete and it was not called.
abbrev pub OnceOrEscaped : {S A : Type 0} → Run S A → Type 0
OnceOrEscaped r = Once r ⊎ ((r.calls ≡ []) × (r.ending ≢ completed))

-- The callback was called, or else the handlers did not complete.
abbrev pub CalledOrEscaped : {S A : Type 0} → Run S A → Type 0
CalledOrEscaped r = (r.calls ≢ []) ⊎ (r.ending ≢ completed)

-- The callback was called so many times, or else the handlers did not complete.
abbrev pub CalledTimes : {S A : Type 0} → ℕ → Run S A → Type 0
CalledTimes times r = (length r.calls ≡ times) ⊎ (r.ending ≢ completed)

append_called : {A : Type 0} (l r : List A) → l ≢ [] → l ++ r ≢ []
append_called [] r told = absurd (told refl)
append_called (a ∷ l) r told = λ e. cc

both_end_stopped : (e f : Ending) → e ≢ completed → both_end e f ≢ completed
both_end_stopped completed f stopped = absurd (stopped refl)
both_end_stopped aborted f stopped = λ q. cc
both_end_stopped (escaped e) f stopped = λ q. cc

-- What a chain that calls the callback once adds to the calls.
pub once_more :
    {S A : Type 0} (first second : Run S A) (times : ℕ)
    → OnceOrEscaped first
    → CalledTimes times second
    → (length (first.calls ++ second.calls) ≡ suc times)
      ⊎ (both_end first.ending second.ending ≢ completed)
once_more first second times (inl (a, one, done)) (inl rest) = inl (rw one (ap suc rest))
once_more first second times (inl (a, one, done)) (inr stopped) = inr (rw done stopped)
once_more first second times (inr (silent, stopped)) rest =
    inr (both_end_stopped first.ending second.ending stopped)

both_called :
    {S A : Type 0} (first second : Run S A)
    → CalledOrEscaped first
    → (first.calls ++ second.calls ≢ []) ⊎ (both_end first.ending second.ending ≢ completed)
both_called first second (inl told) = inl (append_called first.calls second.calls told)
both_called first second (inr stopped) = inr (both_end_stopped first.ending second.ending stopped)

module _ {Op : Type 0} {Reply : Op → Type 0} {S A : Type 0} (step : S → (op : Op) → S × Reply op)
    (Good : (op : Op) → Reply op → Type 0) (good : (s : S) (op : Op) → Good op (step s op).1) where
  pub run-Settles : (p : Async Reply A) (s : S) → Settles Good ⊥ p → OnceOrEscaped (run step p s)
  unfolding run
  run-Settles finished s h = absurd h
  run-Settles crashed s h = inr (refl, λ e. cc)
  run-Settles (raised e) s h = inr (refl, λ q. cc)
  run-Settles (call a rest) s h = inl (a, rw h refl, rw h refl)
  run-Settles (wait op k) s h =
      run-Settles (k (step s op).1) (step s op).0 (h (step s op).1 (good s op))
  run-Settles (both p q) s h = absurd h.0

  pub run-Settles_called :
      (Twice : Type 0) (p : Async Reply A) (s : S)
      → Settles Good Twice p
      → CalledOrEscaped (run step p s)
  unfolding run
  run-Settles_called Twice finished s h = absurd h
  run-Settles_called Twice crashed s h = inr (λ e. cc)
  run-Settles_called Twice (raised e) s h = inr (λ q. cc)
  run-Settles_called Twice (call a rest) s h = inl (λ e. cc)
  run-Settles_called Twice (wait op k) s h =
      run-Settles_called Twice (k (step s op).1) (step s op).0 (h (step s op).1 (good s op))
  run-Settles_called Twice (both p q) s h =
      both_called (run step p s) (run step q (run step p s).world)
        (run-Settles_called Twice p s h.1)
