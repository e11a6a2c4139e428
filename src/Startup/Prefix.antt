-- ===== src/Startup/Prefix.antt =====
-- What `normalize_path` of src/main.rs makes of a path.
use dendri_server.Common.{
  ℕ, ◌≡◌, ◌<◌, refl, sym, ap, lt→ltb, false, [], ◌∷◌, ◌++◌, Text, nat_beq, text_beq, arith, length,
}
use dendri_server.Dashboard.Email.{ends_with_byte}
use mathlib.Core.List.{append_assoc}
use dendri_server.Startup.{normalize_path, without_slash, drop_last}

ends_with_byte-append : (c b d : ℕ) (s : Text) → ends_with_byte c (b ∷ s ++ d ∷ []) ≡ nat_beq d c
unfolding ends_with_byte
ends_with_byte-append c b d [] = refl
ends_with_byte-append c b d (e ∷ s) = ends_with_byte-append c e d s

drop_last-append : (s : Text) (d : ℕ) → drop_last (s ++ d ∷ []) ≡ s
unfolding drop_last
drop_last-append [] d = refl
drop_last-append (b ∷ []) d = refl
drop_last-append (b ∷ c ∷ s) d = ap (λ t. b ∷ t) (drop_last-append (c ∷ s) d)

long : (a b : ℕ) (s : Text) → 1 < length (a ∷ b ∷ s)
long a b s = omega arith

not_root : (b : ℕ) (s : Text) → text_beq (47 ∷ b ∷ s) (47 ∷ []) ≡ false
unfolding text_beq
not_root b s = refl

without_slash-inner :
    (b : ℕ) (s : Text) → ends_with_byte 47 (b ∷ s) ≡ false → without_slash (47 ∷ b ∷ s) ≡ 47 ∷ b ∷ s
unfolding without_slash ends_with_byte
without_slash-inner b s e = rw (e, lt→ltb 1 (length (47 ∷ b ∷ s)) (long 47 b s), not_root b s) refl

without_slash-append : (b : ℕ) (s : Text) → without_slash (47 ∷ b ∷ s ++ 47 ∷ []) ≡ 47 ∷ b ∷ s
unfolding without_slash
without_slash-append b s =
    rw (ends_with_byte-append 47 47 47 (b ∷ s), drop_last-append (47 ∷ b ∷ s) 47)
      (ground (arith, lt→ltb 1 (length (47 ∷ b ∷ (s ++ 47 ∷ []))) (long 47 b (s ++ 47 ∷ []))))

-- The ways to write a path, and the prefix of the routes that each gives.
pub record Forms (path : Text) : Type 0 where
  pub plain : normalize_path path ≡ 47 ∷ path
  pub led : normalize_path (47 ∷ path) ≡ 47 ∷ path
  pub trailed : normalize_path (path ++ 47 ∷ []) ≡ 47 ∷ path
  pub enclosed : normalize_path (47 ∷ path ++ 47 ∷ []) ≡ 47 ∷ path
  pub doubled : normalize_path (path ++ 47 ∷ 47 ∷ []) ≡ 47 ∷ path ++ 47 ∷ []

-- For a path that is not empty and neither starts nor ends with a slash: with or without a slash
-- before it, behind it, or both, its prefix is a slash and the path; but with two slashes behind
-- it, the prefix ends with a slash.
pub normalize_path-Forms :
    (b : ℕ) (s : Text) → nat_beq b 47 ≡ false → ends_with_byte 47 (b ∷ s) ≡ false → Forms (b ∷ s)
unfolding normalize_path
normalize_path-Forms b s first last = record {
  plain = rw (first, without_slash-inner b s last) refl;
  led = without_slash-inner b s last;
  trailed = rw (first, without_slash-append b s) refl;
  enclosed = without_slash-append b s;
  doubled =
      rw (first, sym (append_assoc s (47 ∷ []) (47 ∷ []))) (without_slash-append b (s ++ 47 ∷ []));
}
