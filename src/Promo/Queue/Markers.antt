-- ===== src/Promo/Queue/Markers.antt =====
-- The markers of posts that were seen and acknowledged (modules/promo_spread/queue.py).
use telegram_auto.Prelude.{
  ℕ, ◌≤◌, ◌≡◌, true, false, not, ◌&&◌, [], ◌∷◌, ◌++◌, Text, arith, ltb, nat_eq, text_eq, inl, inr,
  ◌⊎◌, Bool-cases, length, All, length-last_n-le, last_n-append,
}
use telegram_auto.Prelude.Dict
use telegram_auto.Prelude.Dict.{Dict}
use telegram_auto.Prelude.Sort.{sort_by, sort_by-append_max}
use telegram_auto.Prelude.Strip.{strip, is_empty}
use telegram_auto.Promo.Queue.{
  Markers, QueueFile, marked, cap_markers, claim_marker, try_claim_post_seen, post_seen,
}

-- The clock does not run behind the markers of a bucket.
abbrev pub NotAfter : ℕ → Markers → Type 0
NotAfter now m = All (λ e. e.1 ≤ now) (marked m)

has_key-cap_markers :
    (key : Text) (now : ℕ) (d : Dict Text ℕ)
    → All (λ e. e.1 ≤ now) d
    → Dict.has_key key d ≡ false
    → Dict.has_key key (cap_markers (Dict.insert key now d)) ≡ true
unfolding cap_markers Dict.has_key
has_key-cap_markers key now d h absent =
    let e : Dict.insert key now d ≡ d ++ (key, now) ∷ [] = Dict.insert_absent key now d absent in
    let (zs, cut) = last_n-append 199 (sort_by (λ (m : Text × ℕ). m.1) d) (key, now) in
    let sorted = sort_by-append_max (λ (m : Text × ℕ). m.1) (key, now) d h in
    rw e (elim (Bool-cases (ltb 300 (length (d ++ (key, now) ∷ [])))) [
      | inl long ↦
          rw (long, sorted, cut) (rw (Dict.has_key-append key zs ((key, now) ∷ [])) (ground arith))
      | inr short ↦ rw short (rw (Dict.has_key-append key d ((key, now) ∷ [])) (ground arith))
    ])

-- What is claimed is marked, if the clock does not run behind.
claim_marker_marks :
    (key : Text) (now : ℕ) (m : Markers)
    → NotAfter now m
    → Dict.has_key key (marked (claim_marker key now m).1) ≡ true
unfolding claim_marker
claim_marker_marks key now m h = elim (Bool-cases (Dict.has_key key (marked m))) [
  | inl old ↦ rw (old, claim_marker) old
  | inr new ↦ rw (new, claim_marker) (has_key-cap_markers key now (marked m) h new)
]

length-cap_markers : (d : Dict Text ℕ) → length (cap_markers d) ≤ 300
unfolding cap_markers
length-cap_markers d = elim (Bool-cases (ltb 300 (length d))) [
  | inl long ↦ rw long (omega (arith, length-last_n-le 200 (sort_by (λ (m : Text × ℕ). m.1) d)))
  | inr short ↦ rw short (ground arith)
]

-- `try_claim_post_seen` answers whether the post was new: its key is not blank and was not seen.
pub try_claim_post_seen_lem :
    (key : Text) (now : ℕ) (q : QueueFile)
    → (try_claim_post_seen key now q).0 ≡ (not (is_empty (strip key)) && not (post_seen key q))
unfolding try_claim_post_seen post_seen
try_claim_post_seen_lem key now q = ground arith

-- After a claim at a time not before the markers, a post with a key that is not blank was seen, and
-- no later claim of it succeeds, until other claims push its marker out.
pub post_seen-try_claim_post_seen :
    (key : Text) (now later : ℕ) (q : QueueFile)
    → NotAfter now q.seen_posts
    → is_empty (strip key) ≡ false
    → (post_seen key (try_claim_post_seen key now q).1 ≡ true)
      × ((try_claim_post_seen key later (try_claim_post_seen key now q).1).0 ≡ false)
unfolding try_claim_post_seen post_seen
post_seen-try_claim_post_seen key now later q h full =
    let m = claim_marker_marks (strip key) now q.seen_posts h in
    (ground (arith, m), ground (arith, m))

-- A claim leaves at most 300 markers, or the markers as they were.
pub length-claim_marker :
    (key : Text) (now : ℕ) (m : Markers)
    → ((claim_marker key now m).1 ≡ m) ⊎ (length (marked (claim_marker key now m).1) ≤ 300)
unfolding claim_marker
length-claim_marker key now m = elim (Bool-cases (Dict.has_key key (marked m))) [
  | inl old ↦ inl (rw (old, claim_marker))
  | inr new ↦ inr (rw (new, claim_marker) (length-cap_markers (Dict.insert key now (marked m))))
]
