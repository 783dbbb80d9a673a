-- ===== src/Logging/Journal/Read/Filled.antt =====
-- A page that is read from the journal of systemd fits the query.
use meta_monutchee.Base.{
  ℕ, zero, suc, ◌+◌, ◌<◌, ◌≡◌, arith, Bool, Bool-cases, true, false, not, inl, inr, Option, none,
  some, String, List, [], ◌∷◌, ltb, ltb→lt, nat_beq, length, length-append, All, All-append,
  if◌then◌else◌,
}
use meta_monutchee.System.Trace.{Returns, pure, ◌>>=◌, >>=-elim}
use meta_monutchee.Logging.Journal.{Entry, Query, matches_query, reverse_onto, start_after}
use meta_monutchee.Logging.Journal.Pages.{Fits}
use meta_monutchee.Logging.Journal.Read.{
  Op, Ops, Moved, Reader, J, step, add, take_step, fill_page, nearest, lost, position, read_after,
  read_tail, read_since, read_without, read_from, filter_audience, read,
}

module _ (journal : Reader) (query : Query) where
  abbrev pub IsPage : List Entry → Type 0
  IsPage page = Fits query query.limit page

  add-IsPage :
      (entry : Entry) (page : List Entry)
      → length page < query.limit
      → IsPage page
      → IsPage (add journal query entry page)
  add-IsPage entry page less fits = elim (Bool-cases (matches_query entry query)) [
    | inl match ↦ rw match (
      omega (arith, length-append page (entry ∷ [])),
      All-append (λ e. matches_query e query ≡ true) page (entry ∷ []) fits.1 (match, tt),
    )
    | inr other ↦ rw other fits
  ]

  take_step-IsPage :
      (page : List Entry) (again : List Entry → J (List Entry)) (answer : Moved) (h : Ops)
      → length page < query.limit
      → IsPage page
      → ((longer : List Entry) (h' : Ops) → IsPage longer → Returns IsPage (again longer h'))
      → Returns IsPage (take_step journal query page again answer h)
  unfolding take_step
  take_step-IsPage page again Moved.failed h less fits k = tt
  take_step-IsPage page again Moved.at_end h less fits k = fits
  take_step-IsPage page again Moved.moved h less fits k =
      k (add journal query (journal.entry h) page) (Op.decode_entry ∷ h)
        (add-IsPage (journal.entry h) page less fits)

  fill_page-IsPage :
      (fuel : ℕ) (back : Bool) (page : List Entry) (h : Ops)
      → IsPage page
      → Returns IsPage (fill_page journal query fuel back page h)
  unfolding fill_page
  fill_page-IsPage zero back page h fits = elim (Bool-cases (ltb (length page) query.limit)) [
    | inl less ↦ rw less tt
    | inr full ↦ rw full fits
  ]
  fill_page-IsPage (suc fuel) back page h fits = elim (Bool-cases (ltb (length page) query.limit)) [
    | inl less ↦ rw less (
        >>=-elim (λ r. Unit {0}) (Returns IsPage) (step journal query back)
          (take_step journal query page (fill_page journal query fuel back)) h tt
          (λ answer h' s.
            take_step-IsPage page (fill_page journal query fuel back) answer h'
              (ltb→lt (length page) query.limit less) fits
              (λ longer h'' fits'. fill_page-IsPage fuel back longer h'' fits'))
          (λ e h' s. tt) (λ h' s. tt))
    | inr full ↦ rw full fits
  ]

  reverse_onto-Fits :
      (page acc : List Entry)
      → All (λ e. matches_query e query ≡ true) page
      → All (λ e. matches_query e query ≡ true) acc
      → (length (reverse_onto page acc) ≡ length page + length acc)
        × All (λ e. matches_query e query ≡ true) (reverse_onto page acc)
  reverse_onto-Fits [] acc all_page all_acc = (omega arith, all_acc)
  reverse_onto-Fits (e ∷ page) acc all_page all_acc =
      let inner = reverse_onto-Fits page (e ∷ acc) all_page.1 (all_page.0, all_acc) in
      (omega (arith, inner.0), inner.1)

  reversed-IsPage : (page : List Entry) → IsPage page → IsPage (reverse_onto page [])
  reversed-IsPage page fits =
      let turned = reverse_onto-Fits page [] fits.1 tt in
      (omega (arith, turned.0, fits.0), turned.1)

  Returns-if :
      (t : Bool) (m n : J (List Entry)) (h : Ops)
      → Returns IsPage (m h)
      → Returns IsPage (n h)
      → Returns IsPage ((if t then m else n) h)
  Returns-if true m n h u v = u
  Returns-if false m n h u v = v

  -- a first part of which only the end matters
  after_anything :
      {A : Type 0} (m : J A) (f : A → J (List Entry)) (h : Ops)
      → ((a : A) (h' : Ops) → Returns IsPage (f a h'))
      → Returns IsPage ((m >>= f) h)
  after_anything m f h k =
      >>=-elim (λ r. Unit {0}) (Returns IsPage) m f h tt (λ a h' s. k a h') (λ e h' s. tt)
        (λ h' s. tt)

  nothing : IsPage []
  nothing = (omega arith, tt)

  read_tail-IsPage : (fuel : ℕ) (h : Ops) → Returns IsPage (read_tail journal query fuel h)
  unfolding read_tail
  read_tail-IsPage fuel h = elim (Bool-cases (journal.seeks_tail h)) [
    | inr lost_tail ↦ rw lost_tail tt
    | inl found ↦ rw found (
        Returns-if query.newest_first _ _ (Op.seek_tail ∷ h)
          (fill_page-IsPage fuel true [] (Op.seek_tail ∷ h) nothing)
          (>>=-elim (Returns IsPage) (Returns IsPage) (fill_page journal query fuel true [])
            (λ page. pure (reverse_onto page [])) (Op.seek_tail ∷ h)
            (fill_page-IsPage fuel true [] (Op.seek_tail ∷ h) nothing)
            (λ page h' fits. reversed-IsPage page fits) (λ e h' s. tt) (λ h' s. tt)))
  ]

  read_since-IsPage :
      (fuel since : ℕ) (h : Ops) → Returns IsPage (read_since journal query fuel since h)
  unfolding read_since
  read_since-IsPage fuel since h = elim (Bool-cases (journal.seeks_time h since)) [
    | inr lost_time ↦ rw lost_time tt
    | inl found ↦ rw found (fill_page-IsPage fuel false [] (Op.seek_time since ∷ h) nothing)
  ]

  module _ (room : 0 < query.limit) where
    nearest-IsPage : (answer : Moved) (h : Ops) → Returns IsPage (nearest journal query answer h)
    nearest-IsPage Moved.failed h = nothing
    nearest-IsPage Moved.at_end h = nothing
    nearest-IsPage Moved.moved h =
        Returns-if query.newest_first _ _ h nothing (add-IsPage (journal.entry h) [] room nothing)

    lost-IsPage : (answer : Moved) (h : Ops) → Returns IsPage (lost journal query answer h)
    lost-IsPage answer h = Returns-if query.strict_cursor _ _ h tt (nearest-IsPage answer h)

    position-IsPage :
        (cursor : String) (answer : Moved) (h : Ops)
        → Returns IsPage (position journal query cursor answer h)
    unfolding position
    position-IsPage cursor Moved.failed h = tt
    position-IsPage cursor Moved.at_end h = lost-IsPage Moved.at_end h
    position-IsPage cursor Moved.moved h =
        Returns-if (journal.is_at_cursor h cursor) _ _ (Op.test_cursor cursor ∷ h) nothing
          (lost-IsPage Moved.moved (Op.test_cursor cursor ∷ h))

    read_after-IsPage :
        (fuel : ℕ) (cursor : String) (h : Ops)
        → Returns IsPage (read_after journal query fuel cursor h)
    unfolding read_after
    read_after-IsPage fuel cursor h = elim (Bool-cases (journal.seeks_cursor h cursor)) [
      | inr expired ↦ rw expired tt
      | inl found ↦ rw found (
          let next : Ops = Op.seek_cursor cursor ∷ h in
          >>=-elim (Returns IsPage) (Returns IsPage)
            (position journal query cursor (journal.next next))
            (λ page. fill_page journal query fuel query.newest_first page) (Op.next ∷ next)
            (position-IsPage cursor (journal.next next) (Op.next ∷ next))
            (λ page h' fits. fill_page-IsPage fuel query.newest_first page h' fits) (λ e h' s. tt)
            (λ h' s. tt))
    ]

    read_from-IsPage :
        (fuel : ℕ) (cursor : Option String) (h : Ops)
        → Returns IsPage (read_from journal query fuel cursor h)
    read_from-IsPage fuel (some cursor) h = read_after-IsPage fuel cursor h
    read_from-IsPage fuel none h = from_since query.since
      where
        from_since : (since : Option ℕ) → Returns IsPage (read_without journal query fuel since h)
        from_since none = read_tail-IsPage fuel h
        from_since (some since) =
            Returns-if query.newest_first _ _ h (read_tail-IsPage fuel h)
              (read_since-IsPage fuel since h)

  -- Whatever the journal answers, a page that is read has at most as many entries as the limit, and each of
  -- them matches the query.
  pub read-IsPage : (fuel : ℕ) (h : Ops) → Returns IsPage (read journal query fuel h)
  unfolding read
  read-IsPage fuel h = elim (Bool-cases (nat_beq query.limit 0)) [
    | inl none_wanted ↦ rw none_wanted nothing
    | inr some_wanted ↦ rw some_wanted (
        Returns-if (not journal.is_open) _ _ h tt (
          after_anything (filter_audience journal query)
            (λ _. read_from journal query fuel (start_after query.after)) (Op.flush_matches ∷ h)
            (λ _ h'.
              read_from-IsPage (ground (arith, some_wanted)) fuel (start_after query.after) h')))
  ]
