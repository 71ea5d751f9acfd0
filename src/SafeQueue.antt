-- ===== src/SafeQueue.antt =====
-- src/lib/SafeQueue.hpp: the bounded queue between two threads. Each call holds the mutex from
-- start to end, so threads interleave by whole calls; a `dequeue` on the empty queue waits.
mod Tests
use usbproxy_legacy.Prelude.{
  ℕ, suc, ◌+◌, ◌≤◌, ◌≡◌, refl, sym, ap, ◌∙◌, Option, none, some, List, [], ◌∷◌, ◌++◌, leb,
  if◌then◌else◌, length, length-append, arith,
}
use mathlib.Core.List.{append_assoc, append-nil}

abbrev pub queue_max : ℕ
queue_max = 10000

-- One call of a thread.
pub data Call {ℓ} (A : Type ℓ) : Type ℓ where
  put : A → Call A
  take : Call A

module _ {ℓ} {A : Type ℓ} where
  -- The oldest element stands first. The warning on stderr is left out.
  unfoldable pub enqueue : List A → A → List A
  enqueue [] t = t ∷ []
  enqueue (x ∷ xs) t = if leb queue_max (length (x ∷ xs)) then x ∷ xs else x ∷ xs ++ (t ∷ [])

  -- `none`: the caller waits on the condition variable.
  unfoldable pub dequeue : List A → Option (A × List A)
  dequeue [] = none
  dequeue (x ∷ xs) = some (x, xs)

  after_take : List A → Option (A × List A) → List A × List A
  after_take q none = ([], q)
  after_take q (some (x, rest)) = (x ∷ [], rest)

  call : List A → Call A → List A × List A
  unfolding after_take
  call q (put t) = ([], enqueue q t)
  call q take = after_take q (dequeue q)

  -- The calls of all threads in the order in which they get the mutex: what the consumers
  -- received, and what is left. A consumer that has to wait receives nothing in that turn.
  unfoldable pub run : List A → List (Call A) → List A × List A
  unfolding call
  run q [] = ([], q)
  run q (c ∷ cs) = let (out, q') = call q c in let (outs, q'') = run q' cs in (out ++ outs, q'')

  -- What the producers handed over, in order.
  abbrev pub sent : List (Call A) → List A
  sent [] = []
  sent (put t ∷ cs) = t ∷ sent cs
  sent (take ∷ cs) = sent cs

  enqueue-room : (q : List A) (t : A) → length q + 1 ≤ queue_max → enqueue q t ≡ q ++ (t ∷ [])
  unfolding enqueue
  enqueue-room [] t h = refl
  enqueue-room (x ∷ xs) t h = ground arith

  length-enqueue : (q : List A) (t : A) → length q ≤ queue_max → length (enqueue q t) ≤ queue_max
  unfolding enqueue
  length-enqueue [] t h = omega arith
  length-enqueue (x ∷ xs) t h = ground (arith, length-append xs (t ∷ []))

  -- Whatever the threads do, a queue of at most `QUEUE_MAX` elements never grows beyond it.
  pub run-length :
      (q : List A) (cs : List (Call A)) → length q ≤ queue_max → length (run q cs).1 ≤ queue_max
  unfolding run call dequeue
  run-length q [] h = h
  run-length q (put t ∷ cs) h = run-length (enqueue q t) cs (length-enqueue q t h)
  run-length [] (take ∷ cs) h = run-length [] cs h
  run-length (x ∷ q) (take ∷ cs) h = run-length q cs (omega arith)

  -- First in, first out, with nothing lost or made up: while the elements held and sent fit into
  -- `QUEUE_MAX`, what was received followed by what is left is what was held followed by what was
  -- sent, for every interleaving of calls.
  pub run-fifo :
      (q : List A) (cs : List (Call A))
      → length q + length (sent cs) ≤ queue_max
      → (run q cs).0 ++ (run q cs).1 ≡ q ++ sent cs
  unfolding run call dequeue
  run-fifo q [] h = sym (append-nil q)
  run-fifo q (put t ∷ cs) h =
      let room : enqueue q t ≡ q ++ (t ∷ []) = enqueue-room q t (omega arith) in
      run-fifo (enqueue q t) cs (omega (arith, ap length room, length-append q (t ∷ [])))
      ∙ ap (λ l. l ++ sent cs) room
      ∙ append_assoc q (t ∷ []) (sent cs)
  run-fifo [] (take ∷ cs) h = run-fifo [] cs h
  run-fifo (x ∷ q) (take ∷ cs) h = ap (◌∷◌ x) (run-fifo q cs (omega arith))
