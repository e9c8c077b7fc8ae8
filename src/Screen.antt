-- ===== src/Screen.antt =====
-- internal/screen: the terminal model that the proxy keeps of the child's output, and what is read
-- off it. Style, Utf8, Vt, Csi, Feed and Text are vt.go; Scroll, Render and Frame are scroll.go; Flush is
-- flush.go.
pub mod Style
pub mod Utf8
pub mod Vt
pub mod Csi
pub mod Feed
pub mod Scroll
pub mod Flush
pub mod Text
pub mod Render
pub mod Frame
pub mod Status
