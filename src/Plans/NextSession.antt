-- ===== src/Plans/NextSession.antt =====
-- What `_next_open_session` finds in a calendar.
use a_share_limit_pullback.Base.{
  ◌≤◌, ◌<◌, Bool, true, false, Option, none, some, List, [], ◌∷◌, leb, ltb, keep, get_elem?,
  sort_by, insert_sorted, if◌then◌else◌, Bool-cases, inl, inr, leb→le, ltb→lt, lt→ltb, ◌≡◌, refl,
  sym, subst, arith,
}
use a_share_limit_pullback.Dates.{Date}
use a_share_limit_pullback.Plans.Facts.{next_open_session}

pub data Member (d : Date) : List Date → Type 0 where
  here : {ds : List Date} → Member d (d ∷ ds)
  there : {e : Date} {ds : List Date} → Member d ds → Member d (e ∷ ds)

-- The next session is the least date of the calendar after the day; without one, none is later.
pub data NextOf (day : Date) (calendar : List Date) : Option Date → Type 0 where
  found :
      {next : Date}
      → Member next calendar
      → day < next
      → ((d : Date) → Member d calendar → day < d → next ≤ d)
      → NextOf day calendar (some next)
  not_found : ((d : Date) → Member d calendar → d ≤ day) → NextOf day calendar none

-- the least of a list
data IsLeast (ds : List Date) : Option Date → Type 0 where
  nothing : ((e : Date) → Member e ds → ⊥) → IsLeast ds none
  least : {d : Date} → Member d ds → ((e : Date) → Member e ds → d ≤ e) → IsLeast ds (some d)

first_of : Date → Option Date → Option Date
first_of x none = some x
first_of x (some y) = if leb x y then some x else some y

get_elem?-insert_sorted :
    (x : Date) (ys : List Date) → get_elem? (insert_sorted leb x ys) 0 ≡ first_of x (get_elem? ys 0)
unfolding insert_sorted first_of
get_elem?-insert_sorted x [] = refl
get_elem?-insert_sorted x (y ∷ ys) = ground arith

first_of-IsLeast :
    (x : Date) (xs : List Date) (o : Option Date) → IsLeast xs o → IsLeast (x ∷ xs) (first_of x o)
unfolding first_of
first_of-IsLeast x xs none (nothing empty) = least here (λ e. only e)
  where
    only : (e : Date) → Member e (x ∷ xs) → x ≤ e
    only e here = omega arith
    only e (there m) = elim (empty e m) [ ]
first_of-IsLeast x xs (some y) (least m below) = elim (Bool-cases (leb x y)) [
  | inl first ↦ rw first (least here (x_below first))
  | inr later ↦ rw later (least (there m) (y_below later))
]
  where
    x_below : leb x y ≡ true → (e : Date) → Member e (x ∷ xs) → x ≤ e
    x_below h e here = omega arith
    x_below h e (there k) = omega (arith, leb→le x y h, below e k)

    y_below : leb x y ≡ false → (e : Date) → Member e (x ∷ xs) → y ≤ e
    y_below h e here = ground (arith, h)
    y_below h e (there k) = below e k

sort_by-IsLeast : (ds : List Date) → IsLeast ds (get_elem? (sort_by leb ds) 0)
unfolding sort_by
sort_by-IsLeast [] = nothing (λ e m. elim m [ ])
sort_by-IsLeast (x ∷ xs) =
    subst (IsLeast (x ∷ xs)) (sym (get_elem?-insert_sorted x (sort_by leb xs)))
      (first_of-IsLeast x xs _ (sort_by-IsLeast xs))

module _ (day : Date) where
  kept_case :
      (d x : Date) (xs rest : List Date) (later : Bool)
      → ltb day x ≡ later
      → (Member d rest → Member d xs × (day < d))
      → Member d (if later then x ∷ rest else rest)
      → Member d (x ∷ xs) × (day < d)
  kept_case d x xs rest true e inner here = (here, ltb→lt day x e)
  kept_case d x xs rest true e inner (there k) =
      let (inside, after) = inner k in (there inside, after)
  kept_case d x xs rest false e inner k = let (inside, after) = inner k in (there inside, after)

  kept-Member :
      (d : Date) (ds : List Date) → Member d (keep (λ e. ltb day e) ds) → Member d ds × (day < d)
  kept-Member d [] m = elim m [ ]
  kept-Member d (x ∷ xs) m = kept_case d x xs _ _ refl (kept-Member d xs) m

  Member-kept :
      (d : Date) (ds : List Date) → Member d ds → day < d → Member d (keep (λ e. ltb day e) ds)
  Member-kept d [] m h = elim m [ ]
  Member-kept d (x ∷ xs) here h = rw (lt→ltb day x h) here
  Member-kept d (x ∷ xs) (there m) h = elim (Bool-cases (ltb day x)) [
    | inl later ↦ rw later (there (Member-kept d xs m h))
    | inr before ↦ rw before (Member-kept d xs m h)
  ]

  least-NextOf :
      (calendar : List Date) (o : Option Date)
      → IsLeast (keep (λ e. ltb day e) calendar) o
      → NextOf day calendar o
  least-NextOf calendar none (nothing empty) = not_found (λ d m. no_later d m)
    where
      no_later : (d : Date) → Member d calendar → d ≤ day
      no_later d m = elim (Bool-cases (ltb day d)) [
        | inl later ↦ elim (empty d (Member-kept d calendar m (ltb→lt day d later))) [ ]
        | inr before ↦ ground (arith, before)
      ]
  least-NextOf calendar (some d) (least m below) =
      let (inside, after) = kept-Member d calendar m in
      found inside after (λ e k h. below e (Member-kept e calendar k h))

  -- The next session that is found in a calendar is its least date after the day, and where none is
  -- found, no date of the calendar is after the day.
  pub next_open_session-NextOf :
      (calendar : List Date) → NextOf day calendar (next_open_session day (some calendar))
  unfolding next_open_session
  next_open_session-NextOf calendar = least-NextOf calendar _ (sort_by-IsLeast _)
