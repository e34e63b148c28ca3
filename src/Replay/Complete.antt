-- ===== src/Replay/Complete.antt =====
-- replay.py: every setup of a timeline gets its summary.
use a_share_limit_pullback.Base.{
  inl, inr, ℕ, zero, suc, Bool, true, false, String, eq_refl, Option, none, some, List, [], ◌∷◌,
  map, ltb, if◌then◌else◌, first, keep, length, last?, get_elem?, is_empty, is_some, All, Error,
  or_raise, index_error, stop_iteration, Returns, Returns->>=, ◌≡◌, refl, ap, arith, Bool-cases,
}
use a_share_limit_pullback.Dates.{Date}
use a_share_limit_pullback.Replay.Timeline.{
  TimelineItem, anchored, closing, grouped, is_termination, setup_ids, validate_termination,
}
use a_share_limit_pullback.Replay.Summaries.{
  Anchored, one_profile, summary_of, next_of, summaries_of, summaries_at, setup_summaries,
}

module _ {ℓ κ} {A : Type ℓ} (P : A → Type κ) where
  All-keep : (f : A → Bool) (xs : List A) → All P xs → All P (keep f xs)
  All-keep f [] h = tt
  All-keep f (x ∷ xs) (h, hs) = split (f x) (All-keep f xs hs)
    where
      split : (b : Bool) → All P (keep f xs) → All P (if b then x ∷ keep f xs else keep f xs)
      split true k = (h, k)
      split false k = k

module _ {ℓ κ κ'} {A : Type ℓ} {P : A → Type κ} {Q : A → Type κ'} where
  All-widen : ((x : A) → P x → Q x) → (xs : List A) → All P xs → All Q xs
  All-widen f [] h = tt
  All-widen f (x ∷ xs) (h, hs) = (f x h, All-widen f xs hs)

module _ {ℓ} {A : Type ℓ} where
  first-get_elem? :
      (p : A → Bool) (xs : List A) (n : ℕ) (x : A)
      → get_elem? xs n ≡ some x
      → p x ≡ true
      → is_some (first p xs) ≡ true
  first-get_elem? p [] n x e h = cc
  first-get_elem? p (y ∷ xs) zero x e h = ground (arith, e, h, ap is_some e)
  first-get_elem? p (y ∷ xs) (suc n) x e h = ground (arith, first-get_elem? p xs n x e h)

  get_elem?-length : (x : A) (xs : List A) → is_some (get_elem? (x ∷ xs) (length xs)) ≡ true
  get_elem?-length x [] = refl
  get_elem?-length x (y ∷ ys) = get_elem?-length y ys

  last?-is_some : (x : A) (xs : List A) → is_some (last? (x ∷ xs)) ≡ true
  last?-is_some x xs = ground (arith, get_elem?-length x xs)

  first-last? :
      (p : A → Bool) (xs : List A) (x : A)
      → last? xs ≡ some x
      → p x ≡ true
      → is_some (first p xs) ≡ true
  first-last? p [] x e h = cc
  first-last? p (y ∷ ys) x e h = first-get_elem? p (y ∷ ys) (length ys) x (ground (arith, e)) h

module _ {A : Type 0} where
  Returns-or_raise :
      (o : Option A) (e : Error) → is_some o ≡ true → Returns (λ x. o ≡ some x) (or_raise o e)
  Returns-or_raise none e h = cc
  Returns-or_raise (some x) e h = refl

abbrev Opens : List Anchored → String → Type 0
Opens items id = is_empty (grouped id items) ≡ false

grouped-setup_ids : (items : List Anchored) → All (Opens items) (setup_ids items)
unfolding setup_ids
grouped-setup_ids [] = tt
grouped-setup_ids (i ∷ items) = (
  ground (arith, eq_refl i.0.setup_id),
  All-keep (Opens (i ∷ items)) _ (setup_ids items)
      (All-widen (λ id h. ground (arith, h)) (setup_ids items) (grouped-setup_ids items)),
)

abbrev OpensNext : List Anchored → Option String → Type 0
OpensNext items none = Unit
OpensNext items (some id) = Opens items id

get_elem?-is_some :
    {A : Type 0} (xs : List A) → is_empty xs ≡ false → is_some (get_elem? xs 0) ≡ true
get_elem?-is_some [] h = cc
get_elem?-is_some (x ∷ xs) h = refl

module _ (timeline : List TimelineItem) (items : List Anchored) (latest : TimelineItem)
    (at_end : last? timeline ≡ some latest) where
  opens_next : (ids : List String) → All (Opens items) ids → OpensNext items (next_of ids)
  opens_next [] h = tt
  opens_next (id ∷ ids) (h, hs) = h

  closing-is_termination :
      (invalid_date : Option Date) (next : Option String) (final : TimelineItem)
      → OpensNext items next
      → Returns
          (λ r. is_termination r.1 r.0 invalid_date ≡ true)
          (closing timeline items invalid_date next final latest)
  unfolding closing
  closing-is_termination (some day) next final h = ground arith
  closing-is_termination none (some id) final h =
      Returns->>= _ (or_raise (get_elem? (grouped id items) 0) index_error) _
        (Returns-or_raise _ index_error (get_elem?-is_some (grouped id items) h))
        (λ opening _. refl)
  closing-is_termination none none final h =
      elim (Bool-cases (ltb final.trade_date latest.trade_date)) [
        | inr e ↦ rw e refl
        | inl e ↦ rw e (
            Returns->>= _
              (or_raise (first (λ i. ltb final.trade_date i.trade_date) timeline) stop_iteration) _
              (Returns-or_raise _ stop_iteration (first-last? _ timeline latest at_end e))
              (λ after _. refl))
      ]

  summary_of-setup_id :
      (next : Option String) (id : String) (group : List Anchored)
      → OpensNext items next
      → one_profile group ≡ true
      → Returns (λ s. s.setup_id ≡ id) (summary_of timeline items next latest id group)
  unfolding summary_of validate_termination
  summary_of-setup_id next id [] h k = cc
  summary_of-setup_id next id (opening ∷ rest) h k = rw k (
      Returns->>= _ (or_raise (last? (map (λ i. i.0) (opening ∷ rest))) index_error) _
        (Returns-or_raise _ index_error (last?-is_some opening.0 (map (λ i. i.0) rest)))
        (λ final _.
          Returns->>= _ (closing timeline items _ next final latest) _
            (closing-is_termination _ next final h) (λ r e. rw (Returns, e) refl)))

  summaries_of-ids :
      (ids : List String)
      → All (Opens items) ids
      → All (λ id. one_profile (grouped id items) ≡ true) ids
      → Returns
          (λ summaries. map (λ s. s.setup_id) summaries ≡ ids)
          (summaries_of timeline items latest ids)
  unfolding summaries_of
  summaries_of-ids [] h k = refl
  summaries_of-ids (id ∷ ids) (h, hs) (k, ks) =
      Returns->>= _ (summary_of timeline items (next_of ids) latest id (grouped id items)) _
        (summary_of-setup_id (next_of ids) id (grouped id items) (opens_next ids hs) k)
        (λ summary e.
          Returns->>= _ (summaries_of timeline items latest ids) _ (summaries_of-ids ids hs ks)
            (λ summaries es. cc))

summaries_at-setup_ids :
    (timeline : List TimelineItem) (latest : Option TimelineItem)
    → last? timeline ≡ latest
    → is_some latest ≡ true
    → All
        (λ id. one_profile (grouped id (anchored timeline)) ≡ true)
        (setup_ids (anchored timeline))
    → Returns
        (λ summaries. map (λ s. s.setup_id) summaries ≡ setup_ids (anchored timeline))
        (summaries_at timeline latest)
summaries_at-setup_ids timeline none e k h = cc
summaries_at-setup_ids timeline (some latest) e k h =
    summaries_of-ids timeline (anchored timeline) latest e (setup_ids (anchored timeline))
      (grouped-setup_ids (anchored timeline)) h

-- Where the items of each setup have one score profile, the summaries of a timeline are returned,
-- one for each setup, in the order of their first items.
pub setup_summaries-setup_ids :
    (timeline : List TimelineItem)
    → All
        (λ id. one_profile (grouped id (anchored timeline)) ≡ true)
        (setup_ids (anchored timeline))
    → Returns
        (λ summaries. map (λ s. s.setup_id) summaries ≡ setup_ids (anchored timeline))
        (setup_summaries timeline)
unfolding setup_summaries setup_ids
setup_summaries-setup_ids [] h = refl
setup_summaries-setup_ids (i ∷ is) h =
    summaries_at-setup_ids (i ∷ is) (last? (i ∷ is)) refl (last?-is_some i is) h
