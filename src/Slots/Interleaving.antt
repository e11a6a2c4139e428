-- ===== src/Slots/Interleaving.antt =====
-- Any number of threads that reserve and release connection slots (src/state.rs) at once.
use dendri_server.Common.{
  ℕ, zero, suc, sym, ◌∙◌, ◌⊎◌, ◌↔◌, inl, inr, Bool-cases, Option-cases, ◌+◌, ◌-◌, ◌≤◌, ◌<◌, ◌≡◌,
  refl, true, false, Option, none, some, List, [], ◌∷◌, arith, length, leb, if◌then◌else◌,
}
use dendri_server.Slots.{
  usize_mod, fetch_add, fetch_sub, try_reserve_connection_slot, release_connection_slot,
}

-- Where a thread stands: outside, between the `fetch_add` (with the value it returned) and the
-- test, or holding a slot.
pub data Phase : Type 0 where
  idle holding : Phase
  counted : ℕ → Phase

pub record System : Type 0 where
  pub active_connections : ℕ
  pub threads : List Phase

-- The next atomic step of a thread: `fetch_add`; the test, with the `fetch_sub` of a refusal;
-- `fetch_sub` of a release.
pub advance : ℕ → Phase → ℕ → Phase × ℕ
advance limit idle count = (counted count, fetch_add count)
advance limit (counted prev) count =
    if leb limit prev then (idle, fetch_sub count) else (holding, count)
advance limit holding count = (idle, fetch_sub count)

abbrev pub get_elem? {ℓ} : {A : Type ℓ} → List A → ℕ → Option A
get_elem? [] i = none
get_elem? (x ∷ xs) zero = some x
get_elem? (x ∷ xs) (suc i) = get_elem? xs i

abbrev pub set {ℓ} : {A : Type ℓ} → List A → ℕ → A → List A
set [] i v = []
set (x ∷ xs) zero v = v ∷ xs
set (x ∷ xs) (suc i) v = x ∷ set xs i v

-- Thread `i` makes a step; a thread that does not exist makes none.
pub step : ℕ → System → ℕ → System
step limit s i = elim (get_elem? s.threads i) [
  | none ↦ s
  | some p ↦
      let (p', count) = advance limit p s.active_connections in
      record { active_connections = count; threads = set s.threads i p' }
]

-- A schedule names the thread that moves next.
pub run : ℕ → System → List ℕ → System
run limit s [] = s
run limit s (i ∷ is) = run limit (step limit s i) is

abbrev replicate : ℕ → List Phase
replicate zero = []
replicate (suc n) = idle ∷ replicate n

abbrev pub start : ℕ → System
start n = record { active_connections = 0; threads = replicate n }

abbrev pub total : (Phase → ℕ) → List Phase → ℕ
total w [] = 0
total w (p ∷ ps) = w p + total w ps

abbrev holds : Phase → ℕ
holds holding = 1
holds idle = 0
holds (counted prev) = 0

abbrev counts : Phase → ℕ
counts holding = 1
counts idle = 0
counts (counted prev) = 1

-- Holding, or about to.
abbrev owns : ℕ → Phase → ℕ
owns limit holding = 1
owns limit idle = 0
owns limit (counted prev) = if leb limit prev then 0 else 1

abbrev waits : Phase → ℕ
waits holding = 0
waits idle = 0
waits (counted prev) = 1

pub holders : System → ℕ
holders s = total holds s.threads

-- The threads between their `fetch_add` and their test.
pub undecided : System → ℕ
undecided s = total waits s.threads

total-set :
    (w : Phase → ℕ) (ps : List Phase) (i : ℕ) (p q : Phase)
    → get_elem? ps i ≡ some p
    → total w (set ps i q) + w p ≡ total w ps + w q
total-set w [] i p q h = ground arith
total-set w (x ∷ ps) zero p q h = ground arith
total-set w (x ∷ ps) (suc i) p q h = omega (arith, total-set w ps i p q h)

length-set : (ps : List Phase) (i : ℕ) (q : Phase) → length (set ps i q) ≡ length ps
length-set [] i q = refl
length-set (x ∷ ps) zero q = refl
length-set (x ∷ ps) (suc i) q = omega (arith, length-set ps i q)

total-counts-le : (ps : List Phase) → total counts ps ≤ length ps
total-counts-le [] = omega arith
total-counts-le (p ∷ ps) = ground (arith, total-counts-le ps)

total-owns-le-counts : (limit : ℕ) (ps : List Phase) → total (owns limit) ps ≤ total counts ps
total-owns-le-counts limit [] = omega arith
total-owns-le-counts limit (p ∷ ps) = ground (arith, total-owns-le-counts limit ps)

total-holds-le-owns : (limit : ℕ) (ps : List Phase) → total holds ps ≤ total (owns limit) ps
total-holds-le-owns limit [] = omega arith
total-holds-le-owns limit (p ∷ ps) = ground (arith, total-holds-le-owns limit ps)

record Inv (limit n : ℕ) (s : System) : Type 0 where
  few : length s.threads ≡ n
  exact : s.active_connections ≡ total counts s.threads
  within : total (owns limit) s.threads ≤ limit

-- A thread that goes from `p` to `q` keeps the invariant, if the counter follows the weights and a
-- new owner finds room.
set-Inv :
    (limit n : ℕ) (s : System) (i count : ℕ) (p q : Phase)
    → Inv limit n s
    → get_elem? s.threads i ≡ some p
    → count + counts p ≡ s.active_connections + counts q
    → (owns limit q ≤ owns limit p) ⊎ (s.active_connections < limit)
    → owns limit q ≤ 1
    → Inv limit n (record { active_connections = count; threads = set s.threads i q })
set-Inv limit n s i count p q v h follows room one = record {
  few = omega (arith, v.few, length-set s.threads i q);
  exact = omega (arith, v.exact, total-set counts s.threads i p q h);
  within = omega (
    arith,
    v.within,
    v.exact,
    total-set (owns limit) s.threads i p q h,
    total-owns-le-counts limit s.threads,
  );
}

counts-le :
    (s : System) (i : ℕ) (p : Phase)
    → get_elem? s.threads i ≡ some p
    → counts p ≤ total counts s.threads
counts-le s i p h = omega (arith, total-set counts s.threads i p idle h)

advance-Inv :
    (limit n : ℕ) (s : System) (i : ℕ) (p : Phase)
    → n < usize_mod
    → Inv limit n s
    → get_elem? s.threads i ≡ some p
    → let (q, count) = advance limit p s.active_connections in
      Inv limit n (record { active_connections = count; threads = set s.threads i q })
unfolding advance
advance-Inv limit n s i idle small v h =
    set-Inv limit n s i _ idle (counted s.active_connections) v h
      (omega (
        arith,
        v.few,
        v.exact,
        total-counts-le (set s.threads i holding),
        length-set s.threads i holding,
        total-set counts s.threads i idle holding h,
      ))
      (ground arith) (ground arith)
advance-Inv limit n s i holding small v h =
    set-Inv limit n s i _ holding idle v h
      (omega (arith, v.few, v.exact, total-counts-le s.threads, counts-le s i holding h))
      (inl (omega arith)) (omega arith)
advance-Inv limit n s i (counted prev) small v h = elim (Bool-cases (leb limit prev)) [
  | inl full ↦ rw full (
      set-Inv limit n s i _ (counted prev) idle v h
        (omega (arith, v.few, v.exact, total-counts-le s.threads, counts-le s i (counted prev) h))
        (inl (omega arith)) (omega arith))
  | inr room ↦ rw room (
      set-Inv limit n s i _ (counted prev) holding v h (omega arith) (inl (rw room (omega arith)))
        (omega arith))
]

step-Inv :
    (limit n : ℕ) (s : System) (i : ℕ)
    → n < usize_mod
    → Inv limit n s
    → Inv limit n (step limit s i)
unfolding step
step-Inv limit n s i small v = elim (Option-cases (get_elem? s.threads i)) [
  | inl e ↦ rw (e, step) v
  | inr (p, e) ↦ rw (e, step) (advance-Inv limit n s i p small v e)
]

run-Inv :
    (limit n : ℕ) (s : System) (schedule : List ℕ)
    → n < usize_mod
    → Inv limit n s
    → Inv limit n (run limit s schedule)
unfolding run
run-Inv limit n s [] small v = v
run-Inv limit n s (i ∷ is) small v =
    run-Inv limit n (step limit s i) is small (step-Inv limit n s i small v)

total-replicate : (w : Phase → ℕ) (n : ℕ) → w idle ≡ 0 → total w (replicate n) ≡ 0
total-replicate w zero h = refl
total-replicate w (suc n) h = omega (arith, total-replicate w n h)

length-replicate : (n : ℕ) → length (replicate n) ≡ n
length-replicate zero = refl
length-replicate (suc n) = omega (arith, length-replicate n)

start-Inv : (limit n : ℕ) → Inv limit n (start n)
start-Inv limit n = record {
  few = length-replicate n;
  exact = sym (total-replicate counts n refl);
  within = omega (arith, total-replicate (owns limit) n refl);
}

counts_split : (ps : List Phase) → total counts ps ≡ total holds ps + total waits ps
counts_split [] = refl
counts_split (p ∷ ps) = ground (arith, counts_split ps)

-- Under every schedule of fewer than 2^64 threads, at most `limit` of them hold a connection slot
-- at any time, and the counter is the number of holders plus that of the threads that have counted
-- themselves and not yet made their test.
pub holders-run-le :
    (limit n : ℕ) (schedule : List ℕ)
    → n < usize_mod
    → let s = run limit (start n) schedule in
      (holders s ≤ limit) × (s.active_connections ≡ holders s + undecided s)
unfolding holders undecided
holders-run-le limit n schedule small =
    let v = run-Inv limit n (start n) schedule small (start-Inv limit n) in
    let ps = (run limit (start n) schedule).threads in
    (omega (arith, v.within, total-holds-le-owns limit ps), v.exact ∙ counts_split ps)

-- Alone, with fewer than 2^64 - 1 connections counted, a thread gets a slot exactly while fewer
-- than `limit` are counted, and a refusal leaves the counter as it was; what it takes, a release
-- gives back.
try_reserve_connection_slot_lem :
    (count limit : ℕ)
    → count < usize_mod - 1
    → ((try_reserve_connection_slot count limit).1 ≡ true ↔ count < limit)
      × ((try_reserve_connection_slot count limit).1 ≡ false
          → (try_reserve_connection_slot count limit).0 ≡ count)
      × ((try_reserve_connection_slot count limit).1 ≡ true
          → release_connection_slot (try_reserve_connection_slot count limit).0 ≡ count)
unfolding try_reserve_connection_slot release_connection_slot
try_reserve_connection_slot_lem count limit small =
    ((λ h. ground arith, λ h. ground arith), (λ h. ground arith), (λ h. ground arith))
