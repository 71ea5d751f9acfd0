-- ===== src/Injectors/Listen/Waiting.antt =====
-- src/lib/Injector.cpp: what the loop does once it has injected a request.
use usbproxy_legacy.Prelude.{
  ℕ, ◌≡◌, refl, ap, sym, ◌∙◌, true, List, [], ◌∷◌, ◌++◌, if◌then◌else◌, append_assoc, arith,
}
use usbproxy_legacy.Injectors.Listen.{
  Injector, Effect, Round, reply_effects, poll_round, round, run,
}
use usbproxy_legacy.Injectors.Listen.Marks.{has_setup, Marks, run-Marks}

-- The replies that come in.
abbrev pub replies : List Round → List Effect
replies [] = []
replies (r ∷ rs) = reply_effects r.reply ++ replies rs

round-waiting :
    (garbage : ℕ) (r : Round) (i : Injector)
    → i.setup_wait ≡ true
    → round garbage r i ≡ (i, reply_effects r.reply)
unfolding round
round-waiting garbage r i h =
    ap
      (λ b.
        if b
        then (i, reply_effects r.reply)
        else if r.ready
        then poll_round garbage r i
        else (i, []))
      h

-- `setup_wait` is never reset: the loop hands on replies, and takes nothing from its source or its
-- buffer any more.
run-waiting :
    (garbage : ℕ) (rs : List Round) (i : Injector)
    → i.setup_wait ≡ true
    → run garbage rs i ≡ (i, replies rs)
unfolding run
run-waiting garbage [] i h = refl
run-waiting garbage (r ∷ rs) i h =
    ap (λ s. ((run garbage rs s.0).0, s.1 ++ (run garbage rs s.0).1)) (round-waiting garbage r i h)
    ∙ ap (λ s. (s.0, reply_effects r.reply ++ s.1)) (run-waiting garbage rs i h)

run-append :
    (garbage : ℕ) (rs later : List Round) (i : Injector)
    → run garbage (rs ++ later) i ≡ (
      (run garbage later (run garbage rs i).0).0,
      (run garbage rs i).1 ++ (run garbage later (run garbage rs i).0).1,
    )
unfolding run
run-append garbage [] later i = refl
run-append garbage (r ∷ rs) later i =
    let (j, es) = round garbage r i in
    let (k, fs) = run garbage rs j in
    ap (λ s. (s.0, es ++ s.1)) (run-append garbage rs later j)
    ∙ ap (λ xs. ((run garbage later k).0, xs)) (sym (append_assoc es fs (run garbage later k).1))

-- Once a request has been sent or given back, whatever else the rounds up to there have brought, the
-- later rounds hand on the replies that come in, and nothing else: no packet and no request is taken
-- from the source or the buffer any more.
pub run-injected :
    (garbage : ℕ) (rs later : List Round) (i : Injector)
    → has_setup (run garbage rs i).1 ≡ true
    → run garbage (rs ++ later) i ≡ ((run garbage rs i).0, (run garbage rs i).1 ++ replies later)
run-injected garbage rs later i h =
    let wait : (run garbage rs i).0.setup_wait ≡ true =
      unfold Marks in ground (arith, run-Marks garbage rs i) in
    run-append garbage rs later i
    ∙ ap (λ r. (r.0, (run garbage rs i).1 ++ r.1))
        (run-waiting garbage later (run garbage rs i).0 wait)
