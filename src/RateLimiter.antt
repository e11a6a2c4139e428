-- ===== src/RateLimiter.antt =====
-- src/rate_limiter.rs: token buckets by client and kind. The crate `governor` is a parameter.
pub mod Separation
use dendri_server.Common.{
  ℕ, Bool, true, false, not, List, [], Text, nat_beq, if◌then◌else◌, unwrap_or, text_beq, pair_eq,
}
use dendri_server.Common.Maps.{Map, lookup, insert, retain}

-- One rate limiter of the crate: `direct (Quota::per_second n)`, and `check`, which reads the
-- clock and updates the limiter.
pub record Governor : Type 1 where
  pub Limiter : Type 0
  pub direct : ℕ → Limiter
  pub check : Limiter → ℕ → Bool × Limiter

-- `NonZeroU32::new(limit).unwrap_or(NonZeroU32::MIN)`
abbrev pub at_least_one : ℕ → ℕ
at_least_one limit = if nat_beq limit 0 then 1 else limit

module _ (g : Governor) where
  open g use {Limiter, direct, check}

  abbrev pub RateLimiter : Type 0
  RateLimiter = Map (Text × Text) Limiter

  abbrev pub new : RateLimiter
  new = []

  -- The bucket that `or_insert_with` finds or makes.
  abbrev pub bucket_of : RateLimiter → Text × Text → ℕ → Limiter
  bucket_of r key limit = unwrap_or (lookup key r) (direct (at_least_one limit))

  unfoldable pub check_and_consume : RateLimiter → ℕ → Text → Text → ℕ → RateLimiter × Bool
  check_and_consume r now client_id bucket_type limit =
      let (allowed, l) = check (bucket_of r (client_id, bucket_type) limit) now in
      (insert (client_id, bucket_type) l r, allowed)

  unfoldable pub remove_client : RateLimiter → Text → RateLimiter
  remove_client r client_id = retain (λ key. not (text_beq key.0 client_id)) r
