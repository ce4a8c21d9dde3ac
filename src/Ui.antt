-- ===== src/Ui.antt =====
-- The user interface on the device: the light and the button of ui/ui.c, the menu of
-- ui/gui_menu.c and the drawing routines of ui/gui.c.
pub mod Leds
pub mod Priority
mod Rounds
pub mod Mixing
pub mod Button
pub mod Presses
mod Font
pub mod Screen
pub mod Pixels
pub mod Status
pub mod Menu
pub mod Selected
mod Tests
pub mod Shapes
pub mod Boxes
mod Steps
mod Straight
pub mod Lines
pub mod Figures
