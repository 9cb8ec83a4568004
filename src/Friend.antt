-- ===== src/Friend.antt =====
-- friend/: what a friend core runs between the trampoline and the end of friend_main.
pub mod Runtime
pub mod Stacks
mod Tests
