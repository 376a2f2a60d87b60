-- ===== src/Ipc/Fresh.antt =====
-- src/ipc.rs: the window test of `timestamp_fresh`, at a clock reading.
use sc_helper.Prelude.{
  ℕ, ◌+◌, ◌-◌, ◌%◌, ◌^◌, ◌≤◌, ◌≡◌, ◌↔◌, Bool, true, Option, none, some, codes, ltb, leb,
  if◌then◌else◌, arith,
}
use sc_helper.Prelude.Program.{Outcome, done, panicked}
use sc_helper.Ipc.{replay_window_nanos}

-- `now_nanos`, from what the system clock gives since 1970 (`none` if it is set before): the `u128`
-- of nanoseconds is cut to 64 bits.
unfoldable pub now_nanos : Option ℕ → Outcome ℕ
now_nanos none = panicked (codes "system clock predates 1970 — refusing to continue")
now_nanos (some nanos) = done (nanos % 2 ^ 64)

unfoldable pub fresh_at : ℕ → ℕ → Bool
fresh_at now timestamp_nanos =
    let diff = if ltb timestamp_nanos now then now - timestamp_nanos else timestamp_nanos - now in
    leb diff replay_window_nanos

-- A timestamp is fresh exactly when it lies within 30 s of the clock, before it or after it.
pub fresh_at_iff :
    (now ts : ℕ)
    → (fresh_at now ts ≡ true)
      ↔ ((now ≤ ts + replay_window_nanos) × (ts ≤ now + replay_window_nanos))
unfolding fresh_at
fresh_at_iff now ts = ground arith
