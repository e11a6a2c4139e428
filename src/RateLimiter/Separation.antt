-- ===== src/RateLimiter/Separation.antt =====
-- The buckets of src/rate_limiter.rs do not touch one another, whatever `governor` does.
use dendri_server.Common.{
  ℕ, ◌≡◌, refl, subst, ap₂, sym, ap, ◌∙◌, Bool, true, false, not, List, [], ◌∷◌, arith, Text,
  filter, if◌then◌else◌, unwrap_or, none, some, ◌==◌, text_beq, text_beq_iff, text_beq_refl,
  text_eq, pair_eq, pair_beq, pair_beq_iff, Bool-cases, inl, inr,
}
use dendri_server.Common.Maps.{lookup, lookup-insert, lookup-retain}
use dendri_server.RateLimiter.{
  Governor, RateLimiter, at_least_one, bucket_of, check_and_consume, remove_client,
}

pub data Call : Type 0 where
  checks : Text → Text → ℕ → Call
  removes : Text → Call

module _ (g : Governor) where
  pub step : RateLimiter g → ℕ × Call → RateLimiter g
  step r (now, checks c b limit) = (check_and_consume g r now c b limit).0
  step r (now, removes c) = remove_client g r c

  -- The answers that the checks of one bucket get, in order.
  pub answers : Text × Text → RateLimiter g → List (ℕ × Call) → List Bool
  answers key r [] = []
  answers key r ((now, checks c b limit) ∷ calls) =
      let rest = answers key (step r (now, checks c b limit)) calls in
      if (c, b) == key then (check_and_consume g r now c b limit).1 ∷ rest else rest
  answers key r ((now, removes c) ∷ calls) = answers key (step r (now, removes c)) calls

  -- The calls that name the bucket: its checks, and the removals of its client.
  abbrev pub concerns : Text × Text → ℕ × Call → Bool
  concerns key (now, checks c b limit) = (c, b) == key
  concerns key (now, removes c) = text_beq c key.0

  pub lookup-step :
      (key : Text × Text) (r : RateLimiter g) (call : ℕ × Call)
      → concerns key call ≡ false
      → lookup key (step r call) ≡ lookup key r
  unfolding step check_and_consume remove_client
  lookup-step key r (now, checks c b limit) h =
      lookup-insert (c, b) key (g.check (bucket_of g r (c, b) limit) now).1 r ∙ rw h
  lookup-step key r (now, removes c) h =
      lookup-retain (λ k. not (text_beq k.0 c)) key r
      ∙ ground (arith, text_beq_iff c key.0, text_beq_iff key.0 c)

  -- Limiters that agree on a bucket use the same one for a check of it.
  bucket_agree :
      (key : Text × Text) (r s : RateLimiter g) (k : Text × Text) (limit : ℕ)
      → pair_beq k key ≡ true
      → lookup key r ≡ lookup key s
      → bucket_of g r k limit ≡ bucket_of g s k limit
  bucket_agree key r s k limit h e =
      ap (λ o. unwrap_or o (g.direct (at_least_one limit)))
        (subst (λ j. lookup j r ≡ lookup j s) (sym ((pair_beq_iff k key).0 h)) e)

  -- They agree on it after a call that names it.
  step_agree :
      (key : Text × Text) (r s : RateLimiter g) (call : ℕ × Call)
      → concerns key call ≡ true
      → lookup key r ≡ lookup key s
      → lookup key (step r call) ≡ lookup key (step s call)
  unfolding step check_and_consume remove_client
  step_agree key r s (now, checks c b limit) h e =
      lookup-insert (c, b) key (g.check (bucket_of g r (c, b) limit) now).1 r
      ∙ rw h (ap (λ l. some (g.check l now).1) (bucket_agree key r s (c, b) limit h e))
      ∙ sym (lookup-insert (c, b) key (g.check (bucket_of g s (c, b) limit) now).1 s)
  step_agree key r s (now, removes c) h e =
      lookup-retain (λ k. not (text_beq k.0 c)) key r
      ∙ ap (λ o. if not (text_beq key.0 c) then o else none) e
      ∙ sym (lookup-retain (λ k. not (text_beq k.0 c)) key s)

  answers-filter :
      (key : Text × Text) (calls : List (ℕ × Call)) (r s : RateLimiter g)
      → lookup key r ≡ lookup key s
      → answers key r calls ≡ answers key s (filter (concerns key) calls)
  unfolding answers check_and_consume
  answers-filter key [] r s e = refl
  answers-filter key ((now, checks c b limit) ∷ calls) r s e =
      elim (Bool-cases (concerns key (now, checks c b limit))) [
        | inl h ↦ rw h (
            rw h (
              ap₂ ◌∷◌ (ap (λ l. (g.check l now).0) (bucket_agree key r s (c, b) limit h e))
                (answers-filter key calls _ _ (step_agree key r s (now, checks c b limit) h e))))
        | inr h ↦
            rw h (answers-filter key calls _ s (lookup-step key r (now, checks c b limit) h ∙ e))
      ]
  answers-filter key ((now, removes c) ∷ calls) r s e =
      elim (Bool-cases (concerns key (now, removes c))) [
        | inl h ↦ rw h (answers-filter key calls _ _ (step_agree key r s (now, removes c) h e))
        | inr h ↦ rw h (answers-filter key calls _ s (lookup-step key r (now, removes c) h ∙ e))
      ]

  -- The answers that a bucket gets depend only on the calls that name it: they stay the same when
  -- every check of another bucket and every removal of another client is taken out of the run, for
  -- any implementation of the limiters.
  pub answers-concerns :
      (key : Text × Text) (r : RateLimiter g) (calls : List (ℕ × Call))
      → answers key r calls ≡ answers key r (filter (concerns key) calls)
  answers-concerns key r calls = answers-filter key calls r r refl

  lookup-remove_client :
      (r : RateLimiter g) (c b : Text) → lookup (c, b) (remove_client g r c) ≡ none
  unfolding remove_client
  lookup-remove_client r c b =
      lookup-retain (λ k. not (text_beq k.0 c)) (c, b) r ∙ rw (text_beq_refl c)

  -- A client that was removed starts with fresh buckets: its next checks are answered as by a
  -- limiter that has never seen it.
  answers-remove_client :
      (r : RateLimiter g) (c b : Text) (calls : List (ℕ × Call))
      → answers (c, b) (remove_client g r c) calls ≡ answers (c, b) [] calls
  unfolding lookup
  answers-remove_client r c b calls =
      answers-filter (c, b) calls (remove_client g r c) [] (lookup-remove_client r c b)
      ∙ sym (answers-filter (c, b) calls [] [] refl)
