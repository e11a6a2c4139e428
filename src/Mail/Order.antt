-- ===== src/Mail/Order.antt =====
-- Why the order in which `send` of src/email.rs lists its parameters is of no account.
use dendri_server.Common.{
  ℕ, ◌≡◌, refl, sym, ap, ap₂, subst, All, ◌∙◌, inl, inr, true, false, List, [], ◌∷◌, Text, arith,
  Bool-cases,
}
use dendri_server.Mail.{Mailer, text_leb, insert_param, sort_params, sign}
use mathlib.Core.List.{Permᴰ}

text_leb_total : (s t : Text) → text_leb s t ≡ false → text_leb t s ≡ true
unfolding text_leb
text_leb_total [] t h = ground (arith, h)
text_leb_total (a ∷ s) [] h = refl
text_leb_total (a ∷ s) (b ∷ t) h = ground (arith, h, text_leb_total s t)

text_leb_trans : (s t u : Text) → text_leb s t ≡ true → text_leb t u ≡ true → text_leb s u ≡ true
unfolding text_leb
text_leb_trans [] t u h k = refl
text_leb_trans (a ∷ s) [] u h k = ground (arith, h)
text_leb_trans (a ∷ s) (b ∷ t) [] h k = ground (arith, k)
text_leb_trans (a ∷ s) (b ∷ t) (c ∷ u) h k = ground (arith, h, k, text_leb_trans s t u)

text_leb_antisym : (s t : Text) → text_leb s t ≡ true → text_leb t s ≡ true → s ≡ t
unfolding text_leb
text_leb_antisym [] [] h k = refl
text_leb_antisym [] (b ∷ t) h k = ground (arith, k)
text_leb_antisym (a ∷ s) [] h k = ground (arith, h)
text_leb_antisym (a ∷ s) (b ∷ t) h k = ground (arith, h, k, text_leb_antisym s t)

abbrev Param : Type 0
Param = Text × Text

insert_param-below :
    (p q : Param) (xs : List Param)
    → text_leb p.0 q.0 ≡ true
    → text_leb q.0 p.0 ≡ false
    → insert_param p (insert_param q xs) ≡ insert_param q (insert_param p xs)
unfolding insert_param
insert_param-below p q [] a b = rw (a, b) refl
insert_param-below p q (x ∷ xs) a b = elim (Bool-cases (text_leb q.0 x.0)) [
  | inl k ↦ rw (k, text_leb_trans p.0 q.0 x.0 a k, a, b, k) refl
  | inr k ↦ elim (Bool-cases (text_leb p.0 x.0)) [
    | inl l ↦ rw (k, l, b, k) refl
    | inr l ↦ rw (k, l, k) (ap (λ ys. x ∷ ys) (insert_param-below p q xs a b))
  ]
]

insert_param-swap :
    (p q : Param) (xs : List Param)
    → (p.0 ≡ q.0 → p ≡ q)
    → insert_param p (insert_param q xs) ≡ insert_param q (insert_param p xs)
insert_param-swap p q xs h = elim (Bool-cases (text_leb p.0 q.0)) [
  | inl a ↦ elim (Bool-cases (text_leb q.0 p.0)) [
    | inl b ↦ rw (h (text_leb_antisym p.0 q.0 a b)) refl
    | inr b ↦ insert_param-below p q xs a b
  ]
  | inr a ↦ sym (insert_param-below q p xs (text_leb_total p.0 q.0 a) a)
]

-- The key of each parameter determines its value.
abbrev AreKeyed : (Text → Text) → List Param → Type 0
AreKeyed value ps = All (λ (p : Param). p.1 ≡ value p.0) ps

same_param :
    (value : Text → Text) (p q : Param) → p.1 ≡ value p.0 → q.1 ≡ value q.0 → p.0 ≡ q.0 → p ≡ q
same_param value p q a b e = ap₂ (λ k v. (k, v)) e (a ∙ ap value e ∙ sym b)

AreKeyed-Perm :
    (value : Text → Text) {ps qs : List Param} → Permᴰ ps qs → AreKeyed value ps → AreKeyed value qs
AreKeyed-Perm value Permᴰ.nil h = tt
AreKeyed-Perm value (Permᴰ.cons e d) h =
    (subst (λ (p : Param). p.1 ≡ value p.0) e h.0, AreKeyed-Perm value d h.1)
AreKeyed-Perm value (Permᴰ.swap e f) h = (
  subst (λ (p : Param). p.1 ≡ value p.0) f h.1.0,
  (subst (λ (p : Param). p.1 ≡ value p.0) e h.0, h.1.1),
)
AreKeyed-Perm value (Permᴰ.trans d e) h = AreKeyed-Perm value e (AreKeyed-Perm value d h)

sort_params-Perm :
    (value : Text → Text) {ps qs : List Param}
    → AreKeyed value ps
    → Permᴰ ps qs
    → sort_params ps ≡ sort_params qs
unfolding sort_params
sort_params-Perm value h Permᴰ.nil = refl
sort_params-Perm value h (Permᴰ.cons e d) = ap₂ insert_param e (sort_params-Perm value h.1 d)
sort_params-Perm value h (Permᴰ.swap {a = p} {b = q} {l = l} e f) =
    insert_param-swap p q (sort_params l) (same_param value p q h.0 h.1.0)
    ∙ ap₂ (λ a b. insert_param a (insert_param b (sort_params l))) f e
sort_params-Perm value h (Permᴰ.trans d e) =
    sort_params-Perm value h d ∙ sort_params-Perm value (AreKeyed-Perm value d h) e

-- The signature of parameters whose values are determined by their keys does not depend on the
-- order in which they are listed, whatever HMAC and base64 are.
pub sign-Perm :
    (hmac_sha1 : Text → Text → List ℕ) (base64 : List ℕ → Text) (m : Mailer) (method : Text)
    (value : Text → Text) (ps qs : List Param)
    → AreKeyed value ps
    → Permᴰ ps qs
    → sign hmac_sha1 base64 m method ps ≡ sign hmac_sha1 base64 m method qs
unfolding sign
sign-Perm hmac_sha1 base64 m method value ps qs h p = rw (sort_params-Perm value h p) refl
