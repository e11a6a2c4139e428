-- ===== src/Slots.antt =====
-- src/state.rs: the atomic count of connections. An atomic operation is one step; a `usize` has 64
-- bits and wraps.
pub mod Interleaving
use dendri_server.Common.{ℕ, ◌+◌, ◌-◌, ◌^◌, ◌%◌, Bool, true, false, leb, if◌then◌else◌}

abbrev pub usize_mod : ℕ
usize_mod = 2 ^ 64

-- `fetch_add(1)` and `fetch_sub(1)`: what the counter becomes.
abbrev pub fetch_add : ℕ → ℕ
fetch_add n = (n + 1) % usize_mod

abbrev pub fetch_sub : ℕ → ℕ
fetch_sub n = (n + usize_mod - 1) % usize_mod

-- With no other thread in between.
unfoldable pub try_reserve_connection_slot : ℕ → ℕ → ℕ × Bool
try_reserve_connection_slot count limit =
    if leb limit count then (fetch_sub (fetch_add count), false) else (fetch_add count, true)

unfoldable pub release_connection_slot : ℕ → ℕ
release_connection_slot count = fetch_sub count
