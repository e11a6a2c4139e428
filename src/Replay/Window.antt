-- ===== src/Replay/Window.antt =====
-- The ring buffer of src/replay_buffer.rs against the whole history of a client.
use dendri_server.Common.{
  ℕ, ◌+◌, ◌-◌, ◌≤◌, ◌<◌, ◌≡◌, refl, sym, ap, ◌∙◌, ◌⊎◌, inl, inr, Bool, List, [], ◌∷◌, ◌++◌, arith,
  length, length-append, drop, drop-append, tail, filter, filter-append, All, All-append, leb,
  if◌then◌else◌, text_eq, Bool-cases, leb→le, leb_false→lt,
}
use native.Mathlib.Decide.{dec_lt}
use mathlib.Core.List.{append_assoc}
use dendri_server.Replay.{
  BufferedMessage, ClientBuffer, evict_front, enforce_max_size, push_message, is_wanted,
}

-- The last `n` entries of a list.
abbrev pub last_n {ℓ} : {A : Type ℓ} → ℕ → List A → List A
last_n n xs = drop (length xs - n) xs

abbrev pub IsExpired : ℕ → ℕ → BufferedMessage → Type 0
IsExpired now ttl m = ttl ≤ now - m.created_at

-- A history ends with its buffer. What stands before is older than the last `max` messages, or has
-- expired.
pub record Tracks (max ttl now : ℕ) (history buf : ClientBuffer) : Type 0 where
  pub older : ClientBuffer
  pub lapsed : ClientBuffer
  pub splits : history ≡ older ++ (lapsed ++ buf)
  pub expired : All (IsExpired now ttl) lapsed
  pub bounded : length lapsed + length buf ≤ max
  pub filled : (older ≡ []) ⊎ (length lapsed + length buf ≡ max)

module _ (ttl now : ℕ) where
  evicted : ClientBuffer → ClientBuffer
  evicted [] = []
  evicted (m ∷ ms) = if leb ttl (now - m.created_at) then m ∷ evicted ms else []

  evicted-append-evict_front : (buf : ClientBuffer) → evicted buf ++ evict_front now ttl buf ≡ buf
  unfolding evicted evict_front
  evicted-append-evict_front [] = refl
  evicted-append-evict_front (m ∷ ms) = ground (arith, evicted-append-evict_front ms)

  evicted-IsExpired : (buf : ClientBuffer) → All (IsExpired now ttl) (evicted buf)
  unfolding evicted
  evicted-IsExpired [] = tt
  evicted-IsExpired (m ∷ ms) = ground (arith, evicted-IsExpired ms)

  -- An expired message is never wanted again.
  filter_expired :
      (later since : ℕ) (xs : ClientBuffer)
      → now ≤ later
      → All (IsExpired now ttl) xs
      → filter (is_wanted later ttl since) xs ≡ []
  filter_expired later since [] h e = refl
  filter_expired later since (m ∷ ms) h e = ground (arith, filter_expired later since ms h e.1)

  pub filter-evict_front :
      (later since : ℕ) (buf : ClientBuffer)
      → now ≤ later
      → filter (is_wanted later ttl since) (evict_front now ttl buf)
        ≡ filter (is_wanted later ttl since) buf
  unfolding evict_front
  filter-evict_front later since [] h = refl
  filter-evict_front later since (m ∷ ms) h = ground (arith, filter-evict_front later since ms)

  IsExpired-mono :
      (later : ℕ) (xs : ClientBuffer)
      → now ≤ later
      → All (IsExpired now ttl) xs
      → All (IsExpired later ttl) xs
  IsExpired-mono later [] h e = tt
  IsExpired-mono later (m ∷ ms) h e = (omega arith, IsExpired-mono later ms h e.1)

module _ {max ttl now : ℕ} {history buf : ClientBuffer} where
  pub Tracks-later :
      (later : ℕ) → now ≤ later → Tracks max ttl now history buf → Tracks max ttl later history buf
  Tracks-later later h t = record {
    older = t.older;
    lapsed = t.lapsed;
    splits = t.splits;
    expired = IsExpired-mono ttl now later t.lapsed h t.expired;
    bounded = t.bounded;
    filled = t.filled;
  }

  pub Tracks-evict_front :
      Tracks max ttl now history buf → Tracks max ttl now history (evict_front now ttl buf)
  Tracks-evict_front t = record {
    older = t.older;
    lapsed = t.lapsed ++ evicted ttl now buf;
    splits =
        t.splits
        ∙ ap (λ zs. t.older ++ (t.lapsed ++ zs)) (sym joined)
        ∙ ap (◌++◌ t.older) (sym (append_assoc t.lapsed (evicted ttl now buf) _));
    expired = All-append _ t.lapsed _ t.expired (evicted-IsExpired ttl now buf);
    bounded = omega (arith, t.bounded, sizes, length-append t.lapsed (evicted ttl now buf));
    filled = ground (arith, t.filled, sizes, length-append t.lapsed (evicted ttl now buf));
  }
    where
      joined : evicted ttl now buf ++ evict_front now ttl buf ≡ buf
      joined = evicted-append-evict_front ttl now buf

      sizes : length (evicted ttl now buf) + length (evict_front now ttl buf) ≡ length buf
      sizes = sym (length-append (evicted ttl now buf) (evict_front now ttl buf)) ∙ ap length joined

-- A message that is pushed on a buffer with room, where `m` is one more message of the history.
module _ {max ttl now : ℕ} {history : ClientBuffer} (m : BufferedMessage) where
  -- The whole window is in the buffer: its oldest message is pushed out.
  Tracks-full :
      (x : BufferedMessage) (buf : ClientBuffer)
      → Tracks max ttl now history (x ∷ buf)
      → length (x ∷ buf) ≡ max
      → Tracks max ttl now (history ++ m ∷ []) (buf ++ m ∷ [])
  Tracks-full x buf t full = record {
    older = t.older ++ (t.lapsed ++ x ∷ []);
    lapsed = [];
    splits = simp (t.splits, append_assoc);
    expired = tt;
    bounded = omega (arith, full, length-append buf (m ∷ []));
    filled = inr (omega (arith, full, length-append buf (m ∷ [])));
  }

  -- The buffer has room, since the window's oldest messages had expired.
  Tracks-lapse :
      (older lapsed buf : ClientBuffer)
      → history ≡ older ++ (lapsed ++ buf)
      → All (IsExpired now ttl) lapsed
      → length lapsed + length buf ≡ max
      → length buf < max
      → Tracks max ttl now (history ++ m ∷ []) (buf ++ m ∷ [])
  Tracks-lapse older [] buf s e full room = absurd (omega arith)
  Tracks-lapse older (y ∷ ys) buf s e full room = record {
    older = older ++ y ∷ [];
    lapsed = ys;
    splits = simp (s, append_assoc);
    expired = e.1;
    bounded = omega (arith, length-append buf (m ∷ []));
    filled = inr (omega (arith, length-append buf (m ∷ [])));
  }

  -- The window itself has room.
  Tracks-grow :
      (buf : ClientBuffer) (t : Tracks max ttl now history buf)
      → t.older ≡ []
      → length t.lapsed + length buf < max
      → Tracks max ttl now (history ++ m ∷ []) (buf ++ m ∷ [])
  Tracks-grow buf t none_older room = record {
    older = t.older;
    lapsed = t.lapsed;
    splits = simp (t.splits, append_assoc);
    expired = t.expired;
    bounded = omega (arith, length-append buf (m ∷ []));
    filled = inl none_older;
  }

  Tracks-room :
      (buf : ClientBuffer)
      → Tracks max ttl now history buf
      → length buf < max
      → Tracks max ttl now (history ++ m ∷ []) (buf ++ m ∷ [])
  Tracks-room buf t room = elim (dec_lt (length t.lapsed + length buf) max) [
    | yes more ↦ Tracks-grow buf t (ground (arith, t.filled)) more
    | no less ↦ Tracks-lapse t.older t.lapsed buf t.splits t.expired (omega (arith, t.bounded)) room
  ]

  Tracks-enforce_max_size :
      (buf : ClientBuffer)
      → 1 ≤ max
      → Tracks max ttl now history buf
      → Tracks max ttl now (history ++ m ∷ []) (enforce_max_size max buf ++ m ∷ [])
  unfolding enforce_max_size
  Tracks-enforce_max_size buf pos t = elim (Bool-cases (leb max (length buf))) [
    | inl full ↦ rw full (trim buf t (omega (arith, leb→le max (length buf) full, t.bounded)))
    | inr room ↦ rw room (Tracks-room buf t (leb_false→lt max (length buf) room))
  ]
    where
      trim :
          (buf : ClientBuffer)
          → Tracks max ttl now history buf
          → length buf ≡ max
          → Tracks max ttl now (history ++ m ∷ []) (tail buf ++ m ∷ [])
      trim [] t full = absurd (omega arith)
      trim (x ∷ xs) t full = Tracks-full x xs t full

-- Each push goes on tracking the history, with the pushed message at its end.
pub Tracks-push_message :
    (max ttl before : ℕ) (m : BufferedMessage) {history buf : ClientBuffer}
    → 1 ≤ max
    → before ≤ m.created_at
    → Tracks max ttl before history buf
    → Tracks max ttl m.created_at (history ++ m ∷ []) (push_message max ttl m buf)
unfolding push_message
Tracks-push_message max ttl before m pos h t =
    Tracks-enforce_max_size m _ pos (Tracks-evict_front (Tracks-later m.created_at h t))

last_n-append :
    (n : ℕ) (older w : ClientBuffer)
    → length w ≤ n
    → (older ≡ []) ⊎ (length w ≡ n)
    → last_n n (older ++ w) ≡ w
last_n-append n older w short (inl none_older) =
    let e : length w - n ≡ 0 = omega arith in rw (none_older, e)
last_n-append n older w short (inr full) =
    let e : length (older ++ w) - n ≡ length older = omega (arith, length-append older w) in
    rw e (drop-append older w)

-- What is replayed from the buffer is what the last `max` messages of the history hold.
pub Tracks-filter :
    {max ttl now : ℕ} (history buf : ClientBuffer) (later since : ℕ)
    → now ≤ later
    → Tracks max ttl now history buf
    → filter (is_wanted later ttl since) buf
      ≡ filter (is_wanted later ttl since) (last_n max history)
Tracks-filter {max} {ttl} {now} history buf later since h t = sym (
    ap (filter wanted)
      (ap (last_n max) t.splits ∙ last_n-append max t.older (t.lapsed ++ buf) sizes filled)
    ∙ filter-append wanted t.lapsed buf
    ∙ ap (λ zs. zs ++ filter wanted buf) (filter_expired ttl now later since t.lapsed h t.expired))
  where
    wanted : BufferedMessage → Bool
    wanted = is_wanted later ttl since

    sizes : length (t.lapsed ++ buf) ≤ max
    sizes = omega (arith, t.bounded, length-append t.lapsed buf)

    filled : (t.older ≡ []) ⊎ (length (t.lapsed ++ buf) ≡ max)
    filled = ground (arith, t.filled, length-append t.lapsed buf)
