-- ===== src/Webhook/Hosts.antt =====
-- Which hosts `is_safe_webhook_url` of src/webhook.rs refuses.
use dendri_server.Common.{
  ℕ, zero, suc, ◌≤◌, ◌<◌, ◌≡◌, refl, inl, inr, Bool, true, false, not, ◌&&◌, ◌||◌, some, List, [],
  ◌∷◌, ◌++◌, Text, arith, codes, leb, nat_beq, nat_beq_iff, text_beq, Option, if◌then◌else◌,
  Bool-cases, sym, is_some, Option-cases, length, drop,
}
use dendri_server.Realm.{decimal, decimal_digits}
use dendri_server.Webhook.Url.{
  to_lower, front, ParsedUrl, eq_ignore_ascii_case, has_prefix, any, prefix_blocks,
  blocked_literals, parse_u8, is_in_172_range, is_safe_host, is_safe_webhook_url,
}

-- A test that holds below a bound.
all_below : ℕ → (ℕ → Bool) → Bool
all_below zero p = true
all_below (suc n) p = p n && all_below n p

all_below-true : (n : ℕ) (p : ℕ → Bool) (k : ℕ) → all_below n p ≡ true → k < n → p k ≡ true
unfolding all_below
all_below-true zero p k h l = absurd (omega (arith, l))
all_below-true (suc n) p k h l = elim (Bool-cases (nat_beq k n)) [
  | inl e ↦ ground (arith, h, e, nat_beq_iff k n)
  | inr e ↦ all_below-true n p k (ground (arith, h)) (ground (arith, l, e))
]

abbrev take : ℕ → List Text → List Text
take zero ts = []
take (suc n) [] = []
take (suc n) (t ∷ ts) = t ∷ take n ts

any_at :
    (p : Text → Bool) (before after : List Text) (t : Text)
    → p t ≡ true
    → any p (before ++ (t ∷ after)) ≡ true
any_at p [] after t h = ground (arith, h)
any_at p (b ∷ bs) after t h = ground (arith, any_at p bs after t h)

-- A dotted address: its first two numbers, and the rest of the text.
abbrev pub address : ℕ → ℕ → Text → Text
address a b rest = decimal a ++ (46 ∷ (decimal b ++ (46 ∷ rest)))

-- Loopback, and the three private ranges of RFC 1918.
pub data IsPrivate : ℕ → ℕ → Type 0 where
  loopback : (b : ℕ) → IsPrivate 127 b
  class_a : (b : ℕ) → IsPrivate 10 b
  class_b : (b : ℕ) → 16 ≤ b → b ≤ 31 → IsPrivate 172 b
  class_c : IsPrivate 192 168

refuses :
    (literal prefix range : Bool)
    → (prefix || range) ≡ true
    → (if literal then false else if prefix then false else not range) ≡ false
refuses true prefix range h = refl
refuses false true range h = refl
refuses false false true h = refl
refuses false false false h = sym h

or_true : (a b : Bool) → b ≡ true → (a || b) ≡ true
or_true true b h = refl
or_true false b h = h

left_or : (a b : Bool) → a ≡ true → (a || b) ≡ true
left_or true b h = refl
left_or false b h = absurd (cc h)

right_of : (a b : Bool) → (a || b) ≡ true → a ≡ false → b ≡ true
right_of true b h e = absurd (cc e)
right_of false b h e = h

prefix_refused :
    (host : Text) → any (λ p. has_prefix p host) prefix_blocks ≡ true → is_safe_host host ≡ false
unfolding is_safe_host
prefix_refused host h =
    refuses (any (λ b. eq_ignore_ascii_case host b) blocked_literals)
      (any (λ p. has_prefix p host) prefix_blocks) (is_in_172_range host)
      (left_or _ (is_in_172_range host) h)

range_refused : (host : Text) → is_in_172_range host ≡ true → is_safe_host host ≡ false
unfolding is_safe_host
range_refused host h =
    refuses (any (λ b. eq_ignore_ascii_case host b) blocked_literals)
      (any (λ p. has_prefix p host) prefix_blocks) (is_in_172_range host) (or_true _ _ h)

class_b_in_range :
    (rest : Text) → all_below 32 (λ b. leb b 15 || is_in_172_range (address 172 b rest)) ≡ true
unfolding all_below decimal decimal_digits is_in_172_range parse_u8
class_b_in_range rest = refl

abbrev before : ℕ → List Text
before n = take n prefix_blocks

abbrev after : ℕ → List Text
after n = drop n prefix_blocks

private_host-refused :
    (a b : ℕ) (rest : Text) → IsPrivate a b → is_safe_host (address a b rest) ≡ false
unfolding has_prefix eq_ignore_ascii_case decimal decimal_digits
private_host-refused a b rest (loopback _) =
    prefix_refused _
      (any_at (λ p. has_prefix p (address 127 b rest)) [] (after 1) (codes "127.") refl)
private_host-refused a b rest (class_a _) =
    prefix_refused _
      (any_at (λ p. has_prefix p (address 10 b rest)) (before 4) (after 5) (codes "10.") refl)
private_host-refused a b rest (class_b _ low high) = range_refused _ (
    right_of (leb b 15) _
      (all_below-true 32 (λ b. leb b 15 || is_in_172_range (address 172 b rest)) b
        (class_b_in_range rest) (omega (arith, high)))
      (ground (arith, low)))
private_host-refused a b rest class_c =
    prefix_refused _
      (any_at (λ p. has_prefix p (address 192 168 rest)) (before 6) [] (codes "192.168.") refl)

-- A URL whose host is a dotted IPv4 address of the loopback range or of a private range of RFC 1918
-- (10/8, 172.16/12, 192.168/16) is refused, whatever its scheme.
pub is_safe_webhook_url-IsPrivate :
    (parse : Text → Option ParsedUrl) (url scheme : Text) (a b : ℕ) (rest : Text)
    → parse url ≡ some (record { scheme = scheme; host = some (address a b rest) })
    → IsPrivate a b
    → is_safe_webhook_url parse url ≡ false
unfolding is_safe_webhook_url
is_safe_webhook_url-IsPrivate parse url scheme a b rest e p =
    rw (e, is_safe_webhook_url) (ground (arith, private_host-refused a b rest p))

no_prefix :
    (p : ℕ) (ps inner : Text)
    → nat_beq (to_lower 91) (to_lower p) ≡ false
    → has_prefix (p ∷ ps) (91 ∷ inner) ≡ false
unfolding has_prefix eq_ignore_ascii_case
no_prefix p ps inner h = elim (Option-cases (front (length ps) inner)) [
  | inl e ↦ rw (e, has_prefix) refl
  | inr (t, e) ↦ rw (e, has_prefix) (rw h refl)
]

no_prefixes : (inner : Text) → any (λ p. has_prefix p (91 ∷ inner)) prefix_blocks ≡ false
no_prefixes inner =
    rw
      (
        no_prefix 49 (codes "27.") inner refl,
        no_prefix 102 (codes "c00:") inner refl,
        no_prefix 102 (codes "d00:") inner refl,
        no_prefix 102 (codes "e80:") inner refl,
        no_prefix 49 (codes "0.") inner refl,
        no_prefix 49 (codes "72.16.") inner refl,
        no_prefix 49 (codes "92.168.") inner refl,
      )
      refl

not_and : (b : Bool) → not (b && false) ≡ true
not_and true = refl
not_and false = refl

bracket_accepted : (inner : Text) → is_safe_host (91 ∷ inner) ≡ true
unfolding is_safe_host eq_ignore_ascii_case is_in_172_range
bracket_accepted inner = rw (no_prefixes inner) (not_and (is_some (front 7 (91 ∷ inner))))

-- An IPv6 host stands in brackets in what the URL crate shows, and every such host is accepted over
-- http: loopback, link-local and unique-local addresses too.
pub is_safe_webhook_url-brackets :
    (parse : Text → Option ParsedUrl) (url inner : Text)
    → parse url ≡ some (record { scheme = codes "http"; host = some (91 ∷ inner) })
    → is_safe_webhook_url parse url ≡ true
unfolding is_safe_webhook_url text_beq
is_safe_webhook_url-brackets parse url inner e =
    rw (e, is_safe_webhook_url) (bracket_accepted inner)
