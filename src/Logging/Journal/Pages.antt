-- ===== src/Logging/Journal/Pages.antt =====
-- What a page of the journal holds.
use meta_monutchee.Base.{
  Bool-cases, not, ◌&&◌, ◌==◌, string_eq, nat_beq, any, keep_if, if◌then◌else◌, inl, inr, ap, refl,
  ◌≢◌, sym, ◌∙◌, ◌++◌, ◌||◌, ◌⊎◌, Bool, false, eq_iff, and_false, ℕ, suc, zero, ◌≤◌, true, ◌≡◌,
  arith, String, Option, some, none, List, [], ◌∷◌, length, All, take,
}
use mathlib.Core.List.{reverse, reverse_aux}
use meta_monutchee.Logging.Journal.{
  Entry, Query, matches_query, collect, page_after, start_after, bounded_page, skip_through,
  visited, reverse_onto,
}

abbrev pub Fits : Query → ℕ → List Entry → Type 0
Fits query limit page = (length page ≤ limit) × All (λ e. matches_query e query ≡ true) page

-- a page that was read, if the cursor had not expired
abbrev pub PageFits : Query → Option (List Entry) → Type 0
PageFits query none = query.strict_cursor ≡ true
PageFits query (some page) = Fits query query.limit page

collect-Fits :
    (query : Query) (es : List Entry) (left : ℕ) → Fits query left (collect query es left)
unfolding collect
collect-Fits query [] left = (omega arith, tt)
collect-Fits query (e ∷ es) zero = (omega arith, tt)
collect-Fits query (e ∷ es) (suc left) =
    ground (arith, collect-Fits query es left, collect-Fits query es (suc left))

page_after-PageFits :
    (query : Query) (after : Option String) (entries : List Entry)
    → PageFits query (page_after query after entries)
page_after-PageFits query none entries = collect-Fits query (visited query entries) query.limit
page_after-PageFits query (some cursor) entries =
    ground (arith, collect-Fits query (skip_through cursor (visited query entries)) query.limit)

-- A page has at most as many entries as the query's limit, and each of them matches the query; only
-- a query with a strict cursor can fail.
pub bounded_page-PageFits :
    (entries : List Entry) (query : Query) → PageFits query (bounded_page entries query)
unfolding bounded_page
bounded_page-PageFits entries query =
    ground (arith, page_after-PageFits query (start_after query.after) entries)

-- all that match the query
abbrev pub matching : Query → List Entry → List Entry
matching query es = keep_if (λ e. matches_query e query) es

collect_none : (query : Query) (es : List Entry) → [] ≡ take 0 (matching query es)
collect_none query [] = refl
collect_none query (e ∷ es) = elim (Bool-cases (matches_query e query)) [
  | inl fits ↦ rw fits refl
  | inr other ↦ rw other (collect_none query es)
]

collect-eq :
    (query : Query) (es : List Entry) (left : ℕ)
    → collect query es left ≡ take left (matching query es)
unfolding collect
collect-eq query [] left = refl
collect-eq query (e ∷ es) zero = elim (Bool-cases (matches_query e query)) [
  | inl fits ↦ rw fits refl
  | inr other ↦ rw other (collect_none query es)
]
collect-eq query (e ∷ es) (suc left) = elim (Bool-cases (matches_query e query)) [
  | inl fits ↦ ground (arith, fits, collect-eq query es left)
  | inr other ↦ ground (arith, other, collect-eq query es (suc left))
]

-- the entries in the order of the query
abbrev pub in_order : Query → List Entry → List Entry
in_order query entries = if query.newest_first then reverse entries else entries

abbrev pub IsOther : String → Entry → Type 0
IsOther cursor e = e.cursor ≢ cursor

-- `rest` is what follows the first entry of the cursor
pub record Follows (cursor : String) (es rest : List Entry) : Type 0 where
  pub before : List Entry
  pub entry : Entry
  pub split : es ≡ before ++ (entry ∷ rest)
  pub here : entry.cursor ≡ cursor
  pub is_first : All (IsOther cursor) before

-- the page of the entries that remain
abbrev pub first_page : Query → List Entry → Option (List Entry)
first_page query es = some (take query.limit (matching query es))

-- The page behind a cursor, from entries in the order of the query: a cursor that no entry has leaves
-- nothing, and fails if it is strict.
abbrev pub IsPageBehind : Query → Option String → List Entry → Option (List Entry) → Type 0
IsPageBehind query none es page = page ≡ first_page query es
IsPageBehind query (some cursor) es page =
    ((rest : List Entry) × (Follows cursor es rest × (page ≡ first_page query rest)))
    ⊎ (All (IsOther cursor) es × (page ≡ (if query.strict_cursor then none else some [])))

-- What a page is: nothing for a limit of zero.
pub record IsPageOf (query : Query) (entries : List Entry) (page : Option (List Entry))
    : Type 0 where
  pub empty_page : query.limit ≡ 0 → page ≡ some []
  pub behind :
      query.limit ≢ 0 → IsPageBehind query (start_after query.after) (in_order query entries) page

abbrev has_cursor : String → Entry → Bool
has_cursor cursor e = e.cursor == cursor

reverse_onto-eq : (es acc : List Entry) → reverse_onto es acc ≡ reverse_aux es acc
reverse_onto-eq [] acc = refl
reverse_onto-eq (e ∷ es) acc = reverse_onto-eq es (e ∷ acc)

visited-in_order : (query : Query) (es : List Entry) → visited query es ≡ in_order query es
visited-in_order query es = elim (Bool-cases query.newest_first) [
  | inl newest ↦ rw newest (reverse_onto-eq es [])
  | inr oldest ↦ rw oldest refl
]

any-reverse_onto :
    (p : Entry → Bool) (es acc : List Entry) → any p (reverse_onto es acc) ≡ (any p es || any p acc)
any-reverse_onto p [] acc = refl
any-reverse_onto p (e ∷ es) acc = ground (arith, any-reverse_onto p es (e ∷ acc))

any-in_order :
    (p : Entry → Bool) (query : Query) (es : List Entry) → any p (in_order query es) ≡ any p es
any-in_order p query es = elim (Bool-cases query.newest_first) [
  | inl newest ↦
      rw newest
        (ap (any p) (sym (reverse_onto-eq es [])) ∙ ground (arith, any-reverse_onto p es []))
  | inr oldest ↦ rw oldest refl
]

is_other : (cursor : String) (e : Entry) → (e.cursor == cursor) ≡ false → IsOther cursor e
is_other cursor e differs same = absurd (ground (arith, differs, (eq_iff e.cursor cursor).1 same))

skip_through-Follows :
    (cursor : String) (es : List Entry)
    → any (has_cursor cursor) es ≡ true
    → Follows cursor es (skip_through cursor es)
unfolding skip_through
skip_through-Follows cursor [] found = absurd (cc)
skip_through-Follows cursor (e ∷ es) found = elim (Bool-cases (e.cursor == cursor)) [
  | inl here ↦ rw here (record {
    before = [];
    entry = e;
    split = refl;
    here = (eq_iff e.cursor cursor).0 here;
    is_first = tt;
  })
  | inr there ↦
      let rest = skip_through-Follows cursor es (ground (arith, found, there)) in
      rw there (record {
        before = e ∷ rest.before;
        entry = rest.entry;
        split = ap (λ (xs : List Entry). e ∷ xs) rest.split;
        here = rest.here;
        is_first = (is_other cursor e there, rest.is_first);
      })
]

skip_through-missing :
    (cursor : String) (es : List Entry)
    → any (has_cursor cursor) es ≡ false
    → All (IsOther cursor) es × (skip_through cursor es ≡ [])
unfolding skip_through
skip_through-missing cursor [] missing = (tt, refl)
skip_through-missing cursor (e ∷ es) missing =
    let differs : (e.cursor == cursor) ≡ false = ground (arith, missing) in
    let rest = skip_through-missing cursor es (ground (arith, missing)) in
    ((is_other cursor e differs, rest.0), rw differs rest.1)

page_behind : Query → Option String → List Entry → List Entry → Option (List Entry)
page_behind query none entries es = some (collect query es query.limit)
page_behind query (some cursor) entries es =
    if query.strict_cursor && not (any (has_cursor cursor) entries)
    then none
    else some (collect query (skip_through cursor es) query.limit)

page_behind-IsPageBehind :
    (query : Query) (after : Option String) (entries es : List Entry)
    → ((p : Entry → Bool) → any p es ≡ any p entries)
    → IsPageBehind query after es (page_behind query after entries es)
unfolding page_behind collect
page_behind-IsPageBehind query none entries es same = ap some (collect-eq query es query.limit)
page_behind-IsPageBehind query (some cursor) entries es same =
    let known = same (has_cursor cursor) in
    elim (Bool-cases (any (has_cursor cursor) es)) [
      | inl found ↦ inl (
        skip_through cursor es,
        (
          skip_through-Follows cursor es found,
          rw (sym known ∙ found, and_false query.strict_cursor)
              (ap some (collect-eq query (skip_through cursor es) query.limit)),
        ),
      )
      | inr missing ↦
          let (others, nothing) = skip_through-missing cursor es missing in
          inr (
            others,
            elim (Bool-cases query.strict_cursor) [
              | inl strict ↦ rw (sym known ∙ missing, strict) refl
              | inr lenient ↦ rw (sym known ∙ missing, nothing, lenient) refl
            ],
          )
    ]

page_after-eq :
    (query : Query) (after : Option String) (entries : List Entry)
    → page_after query after entries ≡ page_behind query after entries (in_order query entries)
unfolding page_behind
page_after-eq query none entries = rw (visited-in_order query entries) refl
page_after-eq query (some cursor) entries = rw (visited-in_order query entries) refl

-- A page is empty if its limit is zero. Otherwise, of the entries in the order of the query, it holds the
-- first that match the query, up to the limit, behind the first entry that has the cursor, or among all
-- without a cursor; if no entry has the cursor, a strict query fails, and another page is empty.
pub bounded_page-IsPageOf :
    (entries : List Entry) (query : Query) → IsPageOf query entries (bounded_page entries query)
unfolding bounded_page
bounded_page-IsPageOf entries query = record {
  empty_page = λ q. rw q refl;
  behind = λ q.
      rw (limited query.limit q, page_after-eq query (start_after query.after) entries)
        (page_behind-IsPageBehind query (start_after query.after) entries (in_order query entries)
          (λ p. any-in_order p query entries));
}
  where
    limited : (n : ℕ) → n ≢ 0 → nat_beq n 0 ≡ false
    limited n h = ground (arith, h)
