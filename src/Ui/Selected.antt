-- ===== src/Ui/Selected.antt =====
-- The menu stays inside its items, and a push chooses the item to which the clicks have led.
use arctic_tracker_teensy.Base.{
  ℕ, zero, suc, ◌+◌, ◌≤◌, ◌<◌, ◌≡◌, refl, ◌∙◌, ap, Bool-cases, inl, inr, true, false, Option, none,
  some, List, [], ◌∷◌, get_elem?, arith,
}
use arctic_tracker_teensy.Ui.Status.{Device, nscreens}
use arctic_tracker_teensy.Ui.Menu.{
  Menu, Effect, Call, items, nitems, max_visible, click_handler, push_handler, menu_activate,
  menu_select, menu_end, chosen,
}

-- The item chosen is one of those shown, and those shown are items.
pub record IsMenu (m : Menu) : Type 0 where
  pub visible : m.selection < max_visible
  pub shown : m.start + max_visible ≤ nitems
  pub screen : m.current < nscreens

-- A click, or a push.
pub data Event : Type 0 where
  click : Event
  push : Event

-- The menu after an event; none where a push reads behind the end of `items`.
unfoldable pub handle : Device → Event → Menu → Option Menu
handle d click m = some (click_handler d m).menu
handle d push m = elim (push_handler d m) [ none ↦ none | some e ↦ some e.menu ]

unfoldable pub handle_all : Device → List Event → Menu → Option Menu
handle_all d [] m = some m
handle_all d (e ∷ es) m = elim (handle d e m) [ none ↦ none | some n ↦ handle_all d es n ]

item_inside :
    (d : Device) (i : ℕ) → i < nitems → (c : Option Call) × (chosen d (get_elem? items i) ≡ some c)
unfolding chosen items
item_inside d zero lt = (_, refl)
item_inside d (suc zero) lt = (_, refl)
item_inside d (suc (suc zero)) lt = (_, refl)
item_inside d (suc (suc (suc zero))) lt = (_, refl)
item_inside d (suc (suc (suc (suc zero)))) lt = (_, refl)
item_inside d (suc (suc (suc (suc (suc i))))) lt = absurd (omega arith)

click-IsMenu : (d : Device) (m : Menu) → IsMenu m → IsMenu (click_handler d m).menu
unfolding click_handler
click-IsMenu d m h = ground arith

-- A push that chooses reads an item.
select_inside :
    (d : Device) (m : Menu)
    → m.start + m.selection < nitems
    → (e : Effect) × (menu_select d m ≡ some e) × (e.menu ≡ record m { menu_active = false })
unfolding menu_select menu_end
select_inside d m lt =
    let (c, found) = item_inside d (m.start + m.selection) lt in
    (record (menu_end d m) { call = c }, rw (found, menu_select) refl, refl)

abbrev menu_of : Option Effect → Option Menu
menu_of none = none
menu_of (some e) = some e.menu

push_menu : (d : Device) (m : Menu) → handle d push m ≡ menu_of (push_handler d m)
unfolding handle
push_menu d m = ground arith

push_open : (d : Device) (m : Menu) → m.menu_active ≡ true → push_handler d m ≡ menu_select d m
unfolding push_handler
push_open d m active = ground arith

push_closed :
    (d : Device) (m : Menu) → m.menu_active ≡ false → push_handler d m ≡ some (menu_activate m)
unfolding push_handler
push_closed d m closed = ground arith

activate-IsMenu : (m : Menu) → IsMenu m → IsMenu (menu_activate m).menu
unfolding menu_activate
activate-IsMenu m h = ground arith

push-IsMenu :
    (d : Device) (m : Menu) → IsMenu m → (n : Menu) × (handle d push m ≡ some n) × IsMenu n
push-IsMenu d m h = elim (Bool-cases m.menu_active) [
  | inl active ↦
      let (e, chosen, same) = select_inside d m (omega (arith, h.visible, h.shown)) in
      let ended : IsMenu (record m { menu_active = false }) = ground (arith, h) in
      (e.menu, push_menu d m ∙ ap menu_of (push_open d m active ∙ chosen), rw same ended)
  | inr closed ↦ (
    (menu_activate m).menu,
    push_menu d m ∙ ap menu_of (push_closed d m closed),
    activate-IsMenu m h,
  )
]

handle-IsMenu :
    (d : Device) (e : Event) (m : Menu) → IsMenu m → (n : Menu) × (handle d e m ≡ some n) × IsMenu n
unfolding handle
handle-IsMenu d click m h = (_, refl, click-IsMenu d m h)
handle-IsMenu d push m h = push-IsMenu d m h

abbrev follow : Device → List Event → Option Menu → Option Menu
follow d es o = elim o [ none ↦ none | some n ↦ handle_all d es n ]

-- After any clicks and pushes the item that would be chosen is one of those shown, and those shown
-- are items; no push reads behind the end of them.
pub handle_all-IsMenu :
    (d : Device) (es : List Event) (m : Menu)
    → IsMenu m
    → (n : Menu) × (handle_all d es m ≡ some n) × IsMenu n
unfolding handle_all
handle_all-IsMenu d [] m h = (m, refl, h)
handle_all-IsMenu d (e ∷ es) m h =
    let (n, done, valid) = handle-IsMenu d e m h in
    let (o, rest, last) = handle_all-IsMenu d es n valid in (o, ap (follow d es) done ∙ rest, last)

-- The menu after clicks.
unfoldable pub clicks : Device → ℕ → Menu → Menu
clicks d zero m = m
clicks d (suc n) m = (click_handler d (clicks d n m)).menu

unfoldable pub call_of : Option Effect → Option (Option Call)
call_of none = none
call_of (some e) = some e.call

by_clicks :
    (d : Device) (m : Menu) (k : ℕ)
    → k < nitems
    → call_of (push_handler d (clicks d k (menu_activate m).menu)) ≡ chosen d (get_elem? items k)
unfolding clicks click_handler push_handler menu_activate call_of menu_select chosen items
by_clicks d m zero lt = refl
by_clicks d m (suc zero) lt = refl
by_clicks d m (suc (suc zero)) lt = refl
by_clicks d m (suc (suc (suc zero))) lt = refl
by_clicks d m (suc (suc (suc (suc zero)))) lt = refl
by_clicks d m (suc (suc (suc (suc (suc k))))) lt = absurd (omega arith)

-- From the opened menu, fewer clicks than there are items and then a push call the item of that
-- number, and as many clicks as there are items close the menu.
pub call-clicks :
    (d : Device) (m : Menu)
    → ((k : ℕ)
        → k < nitems
        → call_of (push_handler d (clicks d k (menu_activate m).menu))
          ≡ chosen d (get_elem? items k))
      × ((clicks d nitems (menu_activate m).menu).menu_active ≡ false)
unfolding clicks click_handler push_handler menu_activate call_of menu_select
call-clicks d m = (by_clicks d m, refl)
