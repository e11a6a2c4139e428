-- ===== src/Services/Notices.antt =====
-- Who is told that a queue has expired (src/services/messages_expire.rs).
use dendri_server.Common.{
  ℕ, ◌+◌, ◌≡◌, refl, ◌∙◌, inl, inr, false, none, some, List, [], ◌∷◌, ◌++◌, map, Text, codes, arith,
  text_eq, text_beq, text_beq_iff, if◌then◌else◌, Bool-cases, Option-cases,
}
use mathlib.Core.List.{append_cancel_right}
use dendri_server.Common.Sets
use dendri_server.Enums.{Message}
use dendri_server.Services.Expire.{expire_frame, src_of, dst_of, notify_sources}
use dendri_server.State.{AppState, send_to}
use dendri_server.World.{World, Json}

abbrev key : Text → Text → Text
key d x = x ++ (codes "_" ++ d)

-- The elements in the order in which they first occur, those seen before left out.
pub fresh : List Text → List Text → List Text
fresh seen [] = []
fresh seen (x ∷ xs) =
    let skipped = fresh seen xs in
    let taken = fresh (x ∷ seen) xs in if Sets.contains x seen then skipped else x ∷ taken

pub count : Text → List Text → ℕ
count x [] = 0
count x (y ∷ ys) = if text_beq y x then count x ys + 1 else count x ys

count-fresh :
    (x : Text) (seen xs : List Text)
    → count x (fresh seen xs)
      ≡ (if Sets.contains x seen then 0 else if Sets.contains x xs then 1 else 0)
unfolding fresh count Sets.contains
count-fresh x seen [] = ground arith
count-fresh x seen (y ∷ ys) =
    ground (arith, text_beq_iff y x, count-fresh x seen ys, count-fresh x (y ∷ seen) ys)

key_injective : (d x y : Text) → key d x ≡ key d y → x ≡ y
key_injective d x y e = append_cancel_right x y (codes "_" ++ d) e

contains-map_key :
    (d x : Text) (seen : List Text)
    → Sets.contains (key d x) (map (key d) seen) ≡ Sets.contains x seen
unfolding Sets.contains
contains-map_key d x [] = refl
contains-map_key d x (y ∷ ys) = ground (
  arith,
  text_beq_iff y x,
  text_beq_iff (key d y) (key d x),
  key_injective d y x,
  contains-map_key d x ys,
)

module _ (j : Json) where
  -- The sources of the messages of a queue that parse.
  pub sources : List Text → List Text
  sources [] = []
  sources (raw ∷ raws) = elim (j.message_from_json raw) [
    | none ↦ sources raws
    | some msg ↦ src_of msg ∷ sources raws
  ]

  -- Every message that parses has the destination.
  abbrev pub IsFor : Text → List Text → Type 0
  IsFor d [] = Unit
  IsFor d (raw ∷ raws) =
      ((msg : Message) → j.message_from_json raw ≡ some msg → dst_of msg ≡ d) × IsFor d raws

insert_new : (k : Text) (ks : List Text) → Sets.contains k ks ≡ false → Sets.insert k ks ≡ k ∷ ks
unfolding Sets.insert
insert_new k ks e = rw e refl

module _ {w : World} where
  -- One frame to each source.
  pub tell_each : AppState w → Text → List Text → AppState w
  tell_each s d [] = s
  tell_each s d (x ∷ xs) = tell_each (send_to s x (expire_frame d x)) d xs

  notify_sources-fresh :
      (s : AppState w) (d : Text) (seen raws : List Text)
      → IsFor w.json d raws
      → notify_sources s (map (key d) seen) raws ≡ tell_each s d (fresh seen (sources w.json raws))
  unfolding notify_sources tell_each fresh sources
  notify_sources-fresh s d seen [] h = refl
  notify_sources-fresh s d seen (raw ∷ raws) h =
      elim (Option-cases (w.json.message_from_json raw)) [
        | inl e ↦ rw (e, notify_sources, sources) (notify_sources-fresh s d seen raws h.1)
        | inr (msg, e) ↦
            rw (e, notify_sources, sources, h.0 msg e, contains-map_key d (src_of msg) seen)
              (elim (Bool-cases (Sets.contains (src_of msg) seen)) [
                | inl c ↦ rw c (notify_sources-fresh s d seen raws h.1)
                | inr c ↦
                    rw
                      (
                        c,
                        insert_new (key d (src_of msg)) (map (key d) seen)
                            (contains-map_key d (src_of msg) seen ∙ c),
                      )
                      (notify_sources-fresh (send_to s (src_of msg) (expire_frame d (src_of msg))) d
                        (src_of msg ∷ seen) raws h.1)
              ])
      ]

  -- For a queue whose messages all have its client as their destination: the expiry sends one EXPIRE
  -- frame to each of a list of sources, in which every source of a message that parses stands
  -- exactly once, and nobody else.
  pub notify_sources_lem :
      (s : AppState w) (d : Text) (raws : List Text)
      → IsFor w.json d raws
      → (notify_sources s [] raws ≡ tell_each s d (fresh [] (sources w.json raws)))
        × ((x : Text)
            → count x (fresh [] (sources w.json raws))
              ≡ (if Sets.contains x (sources w.json raws) then 1 else 0))
  unfolding Sets.contains
  notify_sources_lem s d raws h =
      (notify_sources-fresh s d [] raws h, λ x. count-fresh x [] (sources w.json raws))
