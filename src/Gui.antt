-- ===== src/Gui.antt =====
-- cpp/src/terminal_gui.cpp: the logic of the terminal's window, without the drawing.
pub mod Format
pub mod Chart
pub mod PnlChart
pub mod Ticket
pub mod Panels
pub mod Desk
