-- ===== src/Ui/Menu.antt =====
-- ui/gui_menu.c: the menu, which a click moves on and a long press opens and chooses from.
use arctic_tracker_teensy.Base.{
  ℕ, zero, suc, ◌+◌, ◌-◌, ◌*◌, Bool, true, false, not, Option, none, some, List, [], ◌∷◌, codes,
  get_elem?, ltb, leb, if◌then◌else◌,
}
use arctic_tracker_teensy.Ui.Screen.{drawn, outside, Plot, ◌>>◌, clear}
use arctic_tracker_teensy.Ui.Shapes.{v_line, h_line, box}
use arctic_tracker_teensy.Ui.Figures.{write_text}
use arctic_tracker_teensy.Ui.Status.{Device, status_show, status_next}

-- What a command of the menu calls.
pub data Call : Type 0 where
  tracker_pos_report : Call
  wifi_on : Bool → Call
  igate_on : Bool → Call
  digipeater_on : Bool → Call

pub record MenuCommand : Type 0 where
  pub mc_name : List ℕ
  pub mc_func : Option (Device → Call)

-- mhandle_send, mhandle_wifi, mhandle_igate and mhandle_digipeater
unfoldable pub mhandle_send : Device → Call
mhandle_send d = tracker_pos_report

unfoldable pub mhandle_wifi : Device → Call
mhandle_wifi d = wifi_on (not d.wifi_on)

unfoldable pub mhandle_igate : Device → Call
mhandle_igate d = igate_on (not d.igate_on)

unfoldable pub mhandle_digipeater : Device → Call
mhandle_digipeater d = digipeater_on (not d.digipeater_on)

-- `items`
unfoldable pub items : List MenuCommand
unfolding mhandle_send mhandle_wifi mhandle_igate mhandle_digipeater
items =
    record { mc_name = codes "Send report"; mc_func = some mhandle_send }
    ∷ record { mc_name = codes "WIFI +|-"; mc_func = some mhandle_wifi }
    ∷ record { mc_name = codes "Igate +|-"; mc_func = some mhandle_igate }
    ∷ record { mc_name = codes "Digipeater +|-"; mc_func = some mhandle_digipeater }
    ∷ record { mc_name = codes "Blow up all"; mc_func = none }
    ∷ []

-- `nitems`
abbrev pub nitems : ℕ
nitems = 5

-- MAX_VISIBLE
abbrev pub max_visible : ℕ
max_visible = 4

-- `start`, `selection`, `menu_active`, and `current` of gui_status.c
pub record Menu : Type 0 where
  pub start : ℕ
  pub selection : ℕ
  pub menu_active : Bool
  pub current : ℕ

-- The name of an item at its line; behind the end of `items` there is none.
unfoldable pub show_item : Option MenuCommand → ℕ → Plot
show_item none i s = outside
show_item (some item) i s = write_text 4 (2 + i * 11) item.mc_name s

unfoldable pub show_items : ℕ → ℕ → ℕ → Plot
unfolding show_item items
show_items zero i start s = drawn s
show_items (suc n) i start s =
    (show_item (get_elem? items (start + i)) i >> show_items n (i + 1) start) s

-- menu_show
unfoldable pub menu_show : ℕ → ℕ → Plot
unfolding show_items
menu_show start sel = do
  clear
  h_line 1 0 82
  h_line 1 44 83
  h_line 3 45 82
  v_line 0 0 45
  v_line 82 0 45
  v_line 83 3 41
  box 0 (sel * 11) 83 12 true
  show_items (if ltb nitems max_visible then nitems else max_visible) 0 start

-- A routine changes the menu, calls a function of the device or none, and then draws.
pub record Effect : Type 0 where
  pub menu : Menu
  pub call : Option Call
  pub plot : Plot

-- menu_end
unfoldable pub menu_end : Device → Menu → Effect
menu_end d m = record {
  menu = record m { menu_active = false };
  call = none;
  plot = clear >> status_show m.current d;
}

-- menu_activate
unfoldable pub menu_activate : Menu → Effect
menu_activate m = record {
  menu = record m { selection = 0; start = 0; menu_active = true };
  call = none;
  plot = menu_show 0 0;
}

-- menu_increment
unfoldable pub menu_increment : Device → Menu → Effect
unfolding menu_end
menu_increment d m =
    if leb (nitems - 1) (m.start + m.selection)
    then menu_end d m
    else (let n =
          (if leb (max_visible - 1) m.selection
            then record m { start = m.start + 1 }
            else record m { selection = m.selection + 1 }) in
        record { menu = n; call = none; plot = menu_show n.start n.selection })

-- `items[start+selection].mc_func(...)`, where it is not NULL; none behind the end of `items`
unfoldable pub chosen : Device → Option MenuCommand → Option (Option Call)
chosen d none = none
chosen d (some item) = some (elim (item.mc_func) [ none ↦ none | some f ↦ some (f d) ])

-- menu_select: none where it reads behind the end of `items`
unfoldable pub menu_select : Device → Menu → Option Effect
unfolding menu_end
menu_select d m = elim (chosen d (get_elem? items (m.start + m.selection))) [
  | none ↦ none
  | some c ↦ some (record (menu_end d m) { call = c })
]

-- The status screen that is next.
unfoldable pub show_next : Device → Menu → Effect
unfolding status_next
show_next d m = record {
  menu = record m { current = status_next m.current };
  call = none;
  plot = status_show (status_next m.current) d;
}

-- click_handler and push_handler
unfoldable pub click_handler : Device → Menu → Effect
unfolding menu_increment show_next
click_handler d m = if m.menu_active then menu_increment d m else show_next d m

unfoldable pub push_handler : Device → Menu → Option Effect
unfolding menu_activate
push_handler d m = if m.menu_active then menu_select d m else some (menu_activate m)
