-- ===== src/Coroutines.antt =====
-- core/coroutine: the points where coroutines on several event bases meet. A coroutine's own code is the
-- compiler's; its accesses to the shared fields are steps here, sequentially consistent.
pub mod Future
pub mod Release
