-- ===== src/Ring.antt =====
-- A ring of slots: a `head` and a `tail` that count tickets on machine words, and the slot of each
-- ticket. The elements between them, oldest first, are a window of the slots.
mod Laws
mod Window
mod Counters
mod Modular
mod Arithmetic
mod Advance
mod Passed
mod Around
pub use Laws.{IsRing}
pub use Window.{window, length-window, window-shift, window-push, window-pop, window-replicate}
pub use Counters.{Fits, size, Counts, size-push, size-pop, head-slot, counters}
pub use Modular.{word-mod, shuffled-IsRing}
pub use Arithmetic.{head-sub-tail, head-add-one, tail-add-one, Fits-push, Fits-pop, Fits-idle}
pub use Advance.{window-head, window-next_head, window-next_tail, tail-slot}
pub use Passed.{refused, passed, sub_usize-passed}
pub use Around.{collect, collect-add, collect-perm, around}
