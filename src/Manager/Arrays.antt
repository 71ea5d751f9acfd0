-- ===== src/Manager/Arrays.antt =====
-- src/lib/Manager.cpp: the arrays of plugins from load_plugins to cleanup.
use usbproxy_legacy.Prelude.{
  ℕ, zero, suc, ◌+◌, ◌-◌, ◌%◌, ◌<◌, ◌≤◌, ◌≡◌, ◌≢◌, ◌⊎◌, refl, ap, sym, ◌∙◌, true, false, ◌||◌,
  Option, none, some, List, [], ◌∷◌, ◌++◌, ◌==◌, ltb, if◌then◌else◌, drop, length, length-append,
  Bool-cases, inl, inr, arith, append_assoc, append-nil, take-append, drop-append,
}
use usbproxy_legacy.Usb.Interface.{ok, overflow}
use usbproxy_legacy.Manager.{Plugin, Manager, Event, delete_plugin, record_events}
use usbproxy_legacy.Manager.Plugins.{
  push, add_filter, add_injector, add_filters, add_injectors, load_plugins, deleted, pull,
  move_down, removal, remove_filter, remove_injector, remove_filters, remove_injectors, cleanup,
}

-- The array of a list: NULL for the empty one.
abbrev array_of : List Plugin → Option (List Plugin)
array_of [] = none
array_of (p ∷ ps) = some (p ∷ ps)

-- The manager with these filters and injectors.
abbrev pub loaded : Manager → List Plugin → List Plugin → Manager
loaded m fs js = record m {
  filters = array_of fs;
  filter_count = length fs;
  injectors = array_of js;
  injector_count = length js;
}

push-array_of :
    (ps : List Plugin) (p : Plugin)
    → length ps ≤ 255
    → push (array_of ps) (length ps) p ≡ (
        if length ps == 255
        then overflow
        else ok (array_of (ps ++ (p ∷ [])), length (ps ++ (p ∷ []))))
unfolding push
push-array_of [] p h = refl
push-array_of (q ∷ ps) p h = elim (Bool-cases (suc (length ps) == 255)) [
  | inl e ↦ ground arith
  | inr e ↦
      let other : suc (length ps) ≢ 255 = ground arith in
      let kept : (suc (length ps) + 1) % 256 ≡ suc (length (ps ++ (p ∷ []))) =
        omega (arith, length-append ps (p ∷ []), other) in
      rw (e, kept) (ground arith)
]

add_filters-loaded :
    (m : Manager) (fs js ps : List Plugin)
    → length fs ≤ 255
    → add_filters (loaded m fs js) ps
      ≡ (if ltb 255 (length fs + length ps) then overflow else ok (loaded m (fs ++ ps) js))
unfolding add_filters add_filter
add_filters-loaded m fs js [] h =
    let inside : ltb 255 (length fs + 0) ≡ false = ground arith in rw (inside, append-nil fs) refl
add_filters-loaded m fs js (p ∷ ps) h = elim (Bool-cases (length fs == 255)) [
  | inl e ↦
      let outside : ltb 255 (length fs + suc (length ps)) ≡ true = ground arith in
      rw (push-array_of fs p h, e, outside) refl
  | inr e ↦
      let more = fs ++ (p ∷ []) in
      let other : length fs ≢ 255 = ground arith in
      let counted : length more + length ps ≡ length fs + suc (length ps) =
        omega (arith, length-append fs (p ∷ [])) in
      rw (push-array_of fs p h, e)
        (add_filters-loaded m more js ps (omega (arith, length-append fs (p ∷ []), other))
          ∙ ap (λ k. if ltb 255 k then overflow else ok (loaded m (more ++ ps) js)) counted
          ∙ ap (λ l. if ltb 255 (length fs + suc (length ps)) then overflow else ok (loaded m l js))
              (append_assoc fs (p ∷ []) ps))
]

add_injectors-loaded :
    (m : Manager) (fs js ps : List Plugin)
    → length js ≤ 255
    → add_injectors (loaded m fs js) ps
      ≡ (if ltb 255 (length js + length ps) then overflow else ok (loaded m fs (js ++ ps)))
unfolding add_injectors add_injector
add_injectors-loaded m fs js [] h =
    let inside : ltb 255 (length js + 0) ≡ false = ground arith in rw (inside, append-nil js) refl
add_injectors-loaded m fs js (p ∷ ps) h = elim (Bool-cases (length js == 255)) [
  | inl e ↦
      let outside : ltb 255 (length js + suc (length ps)) ≡ true = ground arith in
      rw (push-array_of js p h, e, outside) refl
  | inr e ↦
      let more = js ++ (p ∷ []) in
      let other : length js ≢ 255 = ground arith in
      let counted : length more + length ps ≡ length js + suc (length ps) =
        omega (arith, length-append js (p ∷ [])) in
      rw (push-array_of js p h, e)
        (add_injectors-loaded m fs more ps (omega (arith, length-append js (p ∷ []), other))
          ∙ ap (λ k. if ltb 255 k then overflow else ok (loaded m fs (more ++ ps))) counted
          ∙ ap (λ l. if ltb 255 (length js + suc (length ps)) then overflow else ok (loaded m fs l))
              (append_assoc js (p ∷ []) ps))
]

-- A manager without plugins takes the filters and the injectors of the plugin manager, all of them
-- and in order, exactly when there are at most 255 of each. With one more the count wraps to 0,
-- and the array is written to before its start.
pub load_plugins-loaded :
    (m : Manager) (fs js : List Plugin)
    → load_plugins (loaded m [] []) fs js
      ≡ (if ltb 255 (length fs) || ltb 255 (length js) then overflow else ok (loaded m fs js))
unfolding load_plugins
load_plugins-loaded m fs js = elim (Bool-cases (ltb 255 (length fs))) [
  | inl e ↦
      let outside : ltb 255 (0 + length fs) ≡ true = ground arith in
      rw (add_filters-loaded m [] [] fs (omega arith), outside, e) refl
  | inr e ↦
      let inside : ltb 255 (0 + length fs) ≡ false = ground arith in
      let counted : 0 + length js ≡ length js = omega arith in
      rw (add_filters-loaded m [] [] fs (omega arith), inside, e)
        (add_injectors-loaded m fs [] js (omega arith)
          ∙ ap (λ k. if ltb 255 k then overflow else ok (loaded m fs js)) counted)
]

-- The calls that delete the plugins from the last one on.
abbrev pub delete_all : List Plugin → List Event
delete_all [] = []
delete_all (p ∷ ps) = delete_all ps ++ (delete_plugin p.name ∷ [])

delete_all-append :
    (ps : List Plugin) (p : Plugin)
    → delete_all (ps ++ (p ∷ [])) ≡ delete_plugin p.name ∷ delete_all ps
delete_all-append [] p = refl
delete_all-append (q ∷ ps) p = ap (λ l. l ++ (delete_plugin q.name ∷ [])) (delete_all-append ps p)

-- A list is empty or has a last element.
last-cases :
    (ps : List Plugin) → (ps ≡ []) ⊎ ((qs : List Plugin) × ((q : Plugin) × (ps ≡ qs ++ (q ∷ []))))
last-cases [] = inl refl
last-cases (p ∷ ps) = elim (last-cases ps) [
  | inl e ↦ inr ([], (p, ap (◌∷◌ p) e))
  | inr (qs, (q, e)) ↦ inr (p ∷ qs, (q, ap (◌∷◌ p) e))
]

drop-all : (ps : List Plugin) (p : Plugin) → drop (suc (length ps)) (ps ++ (p ∷ [])) ≡ []
drop-all [] p = refl
drop-all (q ∷ ps) p = drop-all ps p

move_down-last : (ps : List Plugin) (p : Plugin) → move_down (ps ++ (p ∷ [])) (length ps) ≡ ps
unfolding move_down
move_down-last ps p =
    let inside : ltb (length ps) (length (ps ++ (p ∷ []))) ≡ true =
      ground (arith, length-append ps (p ∷ [])) in
    rw (inside, take-append ps (p ∷ []), drop-all ps p) (append-nil ps)

deleted-last :
    (qs : List Plugin) (q : Plugin) (n : ℕ)
    → deleted (array_of (qs ++ (q ∷ []))) n (length qs) true ≡ ok (delete_plugin q.name ∷ [])
unfolding deleted
deleted-last [] q n = refl
deleted-last (p ∷ qs) q n = rw (drop-append qs (q ∷ []), deleted) refl

pull-last :
    (qs : List Plugin) (q : Plugin)
    → pull (array_of (qs ++ (q ∷ []))) (suc (length qs)) (length qs) ≡ ok (array_of qs, length qs)
unfolding pull
pull-last [] q = refl
pull-last (p ∷ qs) q = rw (move_down-last (p ∷ qs) q) (ground arith)

removal-last :
    (qs : List Plugin) (q : Plugin)
    → removal
        (array_of (qs ++ (q ∷ [])))
        (length (qs ++ (q ∷ [])))
        (length (qs ++ (q ∷ [])) - 1)
        true
      ≡ ok (delete_plugin q.name ∷ [], (array_of qs, length qs))
unfolding removal
removal-last qs q =
    let counted : length (qs ++ (q ∷ [])) ≡ suc (length qs) =
      omega (arith, length-append qs (q ∷ [])) in
    let at : suc (length qs) - 1 ≡ length qs = omega arith in
    rw (counted, at, deleted-last qs q (suc (length qs)), pull-last qs q) refl

remove_filters-loaded :
    (n : ℕ) (m : Manager) (fs js : List Plugin)
    → length fs < n
    → remove_filters n (loaded m fs js) ≡ ok (record_events (loaded m [] js) (delete_all fs))
unfolding remove_filters remove_filter
remove_filters-loaded zero m fs js h = absurd (omega arith)
remove_filters-loaded (suc n) m fs js h = elim (last-cases fs) [
  | inl e ↦ rw e (ap (λ l. ok (record (loaded m [] js) { log = l })) (sym (append-nil m.log)))
  | inr (qs, (q, e)) ↦
      let counted : length (qs ++ (q ∷ [])) ≡ suc (length qs) =
        omega (arith, length-append qs (q ∷ [])) in
      let some_left : (length (qs ++ (q ∷ [])) == 0) ≡ false = ground arith in
      let called = record_events m (delete_plugin q.name ∷ []) in
      rw (e, some_left, removal-last qs q)
        (remove_filters-loaded n called qs js (omega (arith, ap length e))
          ∙ ap (λ l. ok (record (loaded m [] js) { log = l }))
              (append_assoc m.log (delete_plugin q.name ∷ []) (delete_all qs)
                ∙ ap (λ l. m.log ++ l) (sym (delete_all-append qs q))))
]

remove_injectors-loaded :
    (n : ℕ) (m : Manager) (fs js : List Plugin)
    → length js < n
    → remove_injectors n (loaded m fs js) ≡ ok (record_events (loaded m fs []) (delete_all js))
unfolding remove_injectors remove_injector
remove_injectors-loaded zero m fs js h = absurd (omega arith)
remove_injectors-loaded (suc n) m fs js h = elim (last-cases js) [
  | inl e ↦ rw e (ap (λ l. ok (record (loaded m fs []) { log = l })) (sym (append-nil m.log)))
  | inr (qs, (q, e)) ↦
      let counted : length (qs ++ (q ∷ [])) ≡ suc (length qs) =
        omega (arith, length-append qs (q ∷ [])) in
      let some_left : (length (qs ++ (q ∷ [])) == 0) ≡ false = ground arith in
      let called = record_events m (delete_plugin q.name ∷ []) in
      rw (e, some_left, removal-last qs q)
        (remove_injectors-loaded n called fs qs (omega (arith, ap length e))
          ∙ ap (λ l. ok (record (loaded m fs []) { log = l }))
              (append_assoc m.log (delete_plugin q.name ∷ []) (delete_all qs)
                ∙ ap (λ l. m.log ++ l) (sym (delete_all-append qs q))))
]

-- With one round more than there are injectors and than there are filters, both loops end: each
-- injector and then each filter is deleted, once and from the last one on, and none is left.
pub cleanup-loaded :
    (n : ℕ) (m : Manager) (fs js : List Plugin)
    → length fs < n
    → length js < n
    → cleanup n (loaded m fs js)
      ≡ ok (record_events (loaded m [] []) (delete_all js ++ delete_all fs))
unfolding cleanup
cleanup-loaded n m fs js hf hj =
    let called = record_events m (delete_all js) in
    rw (remove_injectors-loaded n m fs js hj) (
      remove_filters-loaded n called fs [] hf
      ∙ ap (λ l. ok (record (loaded m [] []) { log = l }))
          (append_assoc m.log (delete_all js) (delete_all fs)))
