-- ===== src/Replay/History.antt =====
-- The buffers of src/replay_buffer.rs over a whole run of calls.
use mathlib.Core.Path.{subst₂}
use dendri_server.Common.{
  subst, ℕ, ◌≤◌, ◌≡◌, refl, sym, ap, ◌∙◌, inl, inr, List, [], ◌∷◌, ◌++◌, arith, Text, filter,
  if◌then◌else◌, ◌==◌, text_eq, text_beq_iff, Bool-cases,
}
use dendri_server.Common.Maps.{lookup, lookup-insert, lookup-remove}
use dendri_server.Replay.{
  ClientBuffer, ReplayBuffer, new, push_message, push, is_wanted, bodies, replay_since,
  remove_client, evict_expired,
}
use dendri_server.Replay.Window.{
  last_n, Tracks, Tracks-later, Tracks-evict_front, Tracks-push_message, Tracks-filter,
}
use dendri_server.Replay.Eviction.{view, replay_since-view, view-evict_keys}

pub data Call : Type 0 where
  pushes : Text → ℕ → Text → Call
  evicts : Call
  removes : Text → Call

-- A call, with the time at which it is made.
pub step : ReplayBuffer → ℕ × Call → ReplayBuffer
step r (now, pushes c seq body) = push r now c seq body
step r (now, evicts) = evict_expired r now
step r (now, removes c) = remove_client r c

pub run : ReplayBuffer → List (ℕ × Call) → ReplayBuffer
run r [] = r
run r (call ∷ calls) = run (step r call) calls

-- All that was pushed for a client since its buffer was last removed, with no bound and no expiry.
abbrev pub note : Text → ClientBuffer → ℕ × Call → ClientBuffer
note c h (now, pushes d seq body) =
    if d == c then h ++ record { seq = seq; body = body; created_at = now } ∷ [] else h
note c h (now, evicts) = h
note c h (now, removes d) = if d == c then [] else h

pub history : Text → ClientBuffer → List (ℕ × Call) → ClientBuffer
history c h [] = h
history c h (call ∷ calls) = history c (note c h call) calls

-- The clock does not go back.
abbrev pub Rises : ℕ → List (ℕ × Call) → ℕ → Type 0
Rises now [] end = now ≤ end
Rises now ((t, call) ∷ calls) end = (now ≤ t) × Rises t calls end

nothing : (max ttl now : ℕ) → Tracks max ttl now [] []
nothing max ttl now = record {
  older = [];
  lapsed = [];
  splits = refl;
  expired = tt;
  bounded = omega arith;
  filled = inl refl;
}

view-push :
    (r : ReplayBuffer) (now : ℕ) (d c : Text) (seq : ℕ) (body : Text)
    → view c (push r now d seq body).buffers ≡ (
        if d == c
        then push_message r.max_size r.ttl_ms
            (record { seq = seq; body = body; created_at = now })
            (view c r.buffers)
        else view c r.buffers)
unfolding push
view-push r now d c seq body = ground (
  arith,
  text_beq_iff d c,
  lookup-insert d c
      (push_message r.max_size r.ttl_ms (record { seq = seq; body = body; created_at = now })
        (view d r.buffers))
      r.buffers,
)

view-remove_client :
    (r : ReplayBuffer) (d c : Text)
    → view c (remove_client r d).buffers ≡ (if d == c then [] else view c r.buffers)
unfolding remove_client
view-remove_client r d c = ground (arith, text_beq_iff d c, lookup-remove d c r.buffers)

module _ {now : ℕ} (c : Text) {h : ClientBuffer} (r : ReplayBuffer) (t : ℕ) where
  step-Tracks :
      (call : Call)
      → 1 ≤ r.max_size
      → now ≤ t
      → Tracks r.max_size r.ttl_ms now h (view c r.buffers)
      → Tracks r.max_size r.ttl_ms t (note c h (t, call)) (view c (step r (t, call)).buffers)
  unfolding step evict_expired
  step-Tracks (pushes d seq body) pos le f =
      rw (view-push r t d c seq body) (elim (Bool-cases (d == c)) [
        | inl e ↦ rw e (Tracks-push_message r.max_size r.ttl_ms now _ pos le f)
        | inr e ↦ rw e (Tracks-later t le f)
      ])
  step-Tracks evicts pos le f =
      view-evict_keys t r.ttl_ms (Tracks r.max_size r.ttl_ms t h) (λ buf k. Tracks-evict_front k) c
        _ r.buffers (Tracks-later t le f)
  step-Tracks (removes d) pos le f = rw (view-remove_client r d c) (elim (Bool-cases (d == c)) [
    | inl e ↦ rw e (nothing r.max_size r.ttl_ms t)
    | inr e ↦ rw e (Tracks-later t le f)
  ])

step-limits :
    (r : ReplayBuffer) (call : ℕ × Call)
    → ((step r call).max_size ≡ r.max_size) × ((step r call).ttl_ms ≡ r.ttl_ms)
unfolding step push evict_expired remove_client
step-limits r (t, pushes d seq body) = (refl, refl)
step-limits r (t, evicts) = (refl, refl)
step-limits r (t, removes d) = (refl, refl)

run-ttl_ms : (r : ReplayBuffer) (calls : List (ℕ × Call)) → (run r calls).ttl_ms ≡ r.ttl_ms
unfolding run
run-ttl_ms r [] = refl
run-ttl_ms r (call ∷ calls) = run-ttl_ms (step r call) calls ∙ (step-limits r call).1

run-filter :
    (c : Text) (calls : List (ℕ × Call)) (r : ReplayBuffer) (h : ClientBuffer)
    (now end since max ttl : ℕ)
    → r.max_size ≡ max
    → r.ttl_ms ≡ ttl
    → 1 ≤ max
    → Rises now calls end
    → Tracks max ttl now h (view c r.buffers)
    → filter (is_wanted end ttl since) (view c (run r calls).buffers)
      ≡ filter (is_wanted end ttl since) (last_n max (history c h calls))
unfolding run history
run-filter c [] r h now end since max ttl em et pos rises f =
    Tracks-filter h (view c r.buffers) end since rises f
run-filter c ((t, call) ∷ calls) r h now end since max ttl em et pos rises f =
    run-filter c calls (step r (t, call)) (note c h (t, call)) t end since max ttl
      ((step-limits r (t, call)).0 ∙ em) ((step-limits r (t, call)).1 ∙ et) pos rises.1
      (subst₂ (λ a b. Tracks a b t (note c h (t, call)) (view c (step r (t, call)).buffers)) em et
        (step-Tracks c r t call (subst (λ a. 1 ≤ a) (sym em) pos) rises.0
          (subst₂ (λ a b. Tracks a b now h (view c r.buffers)) (sym em) (sym et) f)))

-- After any run of pushes, sweeps and removals at times that do not go back, `replay_since` returns
-- the bodies of exactly those messages that are among the last `max_size` pushed for the client
-- since its last removal, are newer than `since` and have not outlived the TTL, oldest first. The
-- capacity is at least 1.
pub replay_since-run :
    (max ttl : ℕ) (calls : List (ℕ × Call)) (now : ℕ) (c : Text) (since : ℕ)
    → 1 ≤ max
    → Rises 0 calls now
    → replay_since (run (new max ttl) calls) now c since
      ≡ bodies (filter (is_wanted now ttl since) (last_n max (history c [] calls)))
unfolding new lookup
replay_since-run max ttl calls now c since pos rises =
    replay_since-view _ now c since
    ∙ ap (λ t. bodies (filter (is_wanted now t since) (view c (run (new max ttl) calls).buffers)))
        (run-ttl_ms (new max ttl) calls)
    ∙ ap bodies (
        run-filter c calls (new max ttl) [] 0 now since max ttl refl refl pos rises
          (nothing max ttl 0))
