-- ===== src/Manager/Plugins.antt =====
-- src/lib/Manager.cpp: the arrays of filters and injectors, whose length is counted in a byte.
use usbproxy_legacy.Prelude.{
  ℕ, zero, suc, ◌+◌, ◌-◌, ◌%◌, ◌^◌, Bool, true, false, Option, none, some, List, [], ◌∷◌, ◌++◌,
  ◌==◌, ltb, leb, if◌then◌else◌, take, drop, length,
}
use usbproxy_legacy.Usb.Interface.{Parsed, ok, overflow, null_pointer, failed, no_fuel, ◌>>=◌}
use usbproxy_legacy.Manager.{Plugin, Manager, Event, delete_plugin, record_events}

-- The array and its count. A count that wraps to 0 makes the write go before the array.
unfoldable pub push : Option (List Plugin) → ℕ → Plugin → Parsed (Option (List Plugin) × ℕ)
push none n p = ok (some (p ∷ []), 1)
push (some ps) n p =
    if (n + 1) % 2 ^ 8 == 0 then overflow else ok (some (ps ++ (p ∷ [])), (n + 1) % 2 ^ 8)

unfoldable pub add_filter : Manager → Plugin → Parsed Manager
unfolding push
add_filter m p =
    push m.filters m.filter_count p >>= λ r. ok (record m { filters = r.0; filter_count = r.1 })

unfoldable pub add_injector : Manager → Plugin → Parsed Manager
unfolding push
add_injector m p = push m.injectors m.injector_count p >>= λ r.
    ok (record m { injectors = r.0; injector_count = r.1 })

-- `delete(filters[index])`, with the index not tested.
unfoldable pub deleted : Option (List Plugin) → ℕ → ℕ → Bool → Parsed (List Event)
deleted a n i false = ok []
deleted none n i true = null_pointer
deleted (some ps) n i true = elim (drop i ps) [
  | [] ↦ overflow
  | p ∷ ps' ↦ ok (delete_plugin p.name ∷ [])
]

-- The elements behind the index move down; the last one is cut off.
unfoldable pub move_down : List Plugin → ℕ → List Plugin
move_down ps i = if ltb i (length ps) then take i ps ++ drop (suc i) ps else take (length ps - 1) ps

-- A count of 0 wraps: the array gets 255 elements that are not set.
unfoldable pub pull : Option (List Plugin) → ℕ → ℕ → Parsed (Option (List Plugin) × ℕ)
unfolding move_down
pull a n i = if n == 1 then ok (none, 0) else elim a [
  | none ↦ failed
  | some ps ↦ if n == 0 then failed else ok (some (move_down ps i), n - 1)
]

-- What both functions do: the calls, the array and the count.
unfoldable pub removal :
    Option (List Plugin) → ℕ → ℕ → Bool → Parsed (List Event × (Option (List Plugin) × ℕ))
removal a n i free = deleted a n i free >>= λ es. pull a n i >>= λ r. ok (es, r)

unfoldable pub remove_filter : Manager → ℕ → Bool → Parsed Manager
remove_filter m i free = removal m.filters m.filter_count i free >>= λ r.
    ok (record (record_events m (r.0)) { filters = r.1.0; filter_count = r.1.1 })

unfoldable pub remove_injector : Manager → ℕ → Bool → Parsed Manager
remove_injector m i free = removal m.injectors m.injector_count i free >>= λ r.
    ok (record (record_events m (r.0)) { injectors = r.1.0; injector_count = r.1.1 })

element_at : Option (List Plugin) → ℕ → ℕ → Option Plugin
element_at none n i = none
element_at (some ps) n i =
    if leb n i then none else elim (drop i ps) [ [] ↦ none | p ∷ ps' ↦ some p ]

get_filter : Manager → ℕ → Option Plugin
unfolding element_at
get_filter m i = element_at m.filters m.filter_count i

get_injector : Manager → ℕ → Option Plugin
unfolding element_at
get_injector m i = element_at m.injectors m.injector_count i

abbrev get_filter_count : Manager → ℕ
get_filter_count m = m.filter_count

abbrev get_injector_count : Manager → ℕ
get_injector_count m = m.injector_count

-- The two loops of load_plugins over the vectors of the plugin manager.
unfoldable pub add_filters : Manager → List Plugin → Parsed Manager
unfolding add_filter
add_filters m [] = ok m
add_filters m (p ∷ ps) = add_filter m p >>= λ m'. add_filters m' ps

unfoldable pub add_injectors : Manager → List Plugin → Parsed Manager
unfolding add_injector
add_injectors m [] = ok m
add_injectors m (p ∷ ps) = add_injector m p >>= λ m'. add_injectors m' ps

-- Behind the call of the plugin manager, which gives the two lists.
unfoldable pub load_plugins : Manager → List Plugin → List Plugin → Parsed Manager
unfolding add_filters add_injectors
load_plugins m filters injectors = add_filters m filters >>= λ m'. add_injectors m' injectors

-- The two loops of cleanup, on fuel; the proxies are deleted behind them.
unfoldable pub remove_filters : ℕ → Manager → Parsed Manager
unfolding remove_filter
remove_filters zero m = no_fuel
remove_filters (suc n) m =
    let more = remove_filter m (m.filter_count - 1) true >>= λ m'. remove_filters n m' in
    if m.filter_count == 0 then ok m else more

unfoldable pub remove_injectors : ℕ → Manager → Parsed Manager
unfolding remove_injector
remove_injectors zero m = no_fuel
remove_injectors (suc n) m =
    let more = remove_injector m (m.injector_count - 1) true >>= λ m'. remove_injectors n m' in
    if m.injector_count == 0 then ok m else more

unfoldable pub cleanup : ℕ → Manager → Parsed Manager
unfolding remove_filters remove_injectors
cleanup n m = remove_injectors n m >>= λ m'. remove_filters n m'
