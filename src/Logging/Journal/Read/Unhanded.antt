-- ===== src/Logging/Journal/Read/Unhanded.antt =====
-- Reading a page hands nothing to the handler of `follow`.
use meta_monutchee.Base.{
  ℕ, zero, suc, ◌≡◌, Bool, true, false, not, Option, none, some, String, List, [], ltb, nat_beq,
  length, All, if◌then◌else◌,
}
use meta_monutchee.System.Trace.{pure, throw, observe, ◌>>=◌}
use meta_monutchee.System.Trace.Rules.{
  Keeps, Keeps-pure, Keeps-throw, Keeps-observe, Keeps-bind, Keeps-if,
}
use meta_monutchee.Logging.Journal.{Entry, Query, matches_query, start_after}
use meta_monutchee.Logging.Journal.Read.{
  Op, Ops, Moved, JournalError, Reader, J, step, add, take_step, fill_page, nearest, lost, position,
  read_after, read_tail, read_since, read_without, read_from, filter_audience, read,
}

-- an entry that is handed over matches the query
abbrev pub IsFitting : Query → Op → Type 0
IsFitting query (Op.handle e) = matches_query e query ≡ true
IsFitting query _ = Unit

abbrev pub AllFitting : Query → Ops → Type 0
AllFitting query h = All (IsFitting query) h

module _ (query : Query) where
  module _ (journal : Reader) (narrowed : Query) where
    take_step-Keeps :
        (page : List Entry) (again : List Entry → J (List Entry)) (answer : Moved)
        → ((longer : List Entry) → Keeps (AllFitting query) (again longer))
        → Keeps (AllFitting query) (take_step journal narrowed page again answer)
    unfolding take_step
    take_step-Keeps page again Moved.failed k = Keeps-throw _
    take_step-Keeps page again Moved.at_end k = Keeps-pure _
    take_step-Keeps page again Moved.moved k =
        Keeps-bind _ _ (Keeps-observe _ _ (λ h p. (tt, p)))
          (λ entry. k (add journal narrowed entry page))

    step-Keeps : (back : Bool) → Keeps (AllFitting query) (step journal narrowed back)
    step-Keeps true = Keeps-observe _ _ (λ h p. (tt, p))
    step-Keeps false = Keeps-observe _ _ (λ h p. (tt, p))

    fill_page-Keeps :
        (fuel : ℕ) (back : Bool) (page : List Entry)
        → Keeps (AllFitting query) (fill_page journal narrowed fuel back page)
    unfolding fill_page
    fill_page-Keeps zero back page =
        Keeps-if (ltb (length page) narrowed.limit) _ _ (record { at = λ h p. p }) (Keeps-pure _)
    fill_page-Keeps (suc fuel) back page =
        Keeps-if (ltb (length page) narrowed.limit) _ _
          (Keeps-bind _ _ (step-Keeps back)
            (λ answer. take_step-Keeps page _ answer (fill_page-Keeps fuel back)))
          (Keeps-pure _)

    sought-Keeps :
        {A : Type 0} (op : Op) (answer : Ops → Bool) (e : JournalError) (m : J A)
        → IsFitting query op
        → Keeps (AllFitting query) m
        → Keeps
            (AllFitting query)
            (observe op answer >>= λ found. (if found then pure tt else throw e) >>= λ _. m)
    sought-Keeps op answer e m fits keeps =
        Keeps-bind _ _ (Keeps-observe _ _ (λ h p. (fits, p))) (λ found.
          Keeps-bind _ _ (Keeps-if found _ _ (Keeps-pure {A = Unit {0}} tt) (Keeps-throw e))
            (λ _. keeps))

    nearest-Keeps : (answer : Moved) → Keeps (AllFitting query) (nearest journal narrowed answer)
    nearest-Keeps Moved.failed = Keeps-pure _
    nearest-Keeps Moved.at_end = Keeps-pure _
    nearest-Keeps Moved.moved =
        Keeps-if narrowed.newest_first _ _ (Keeps-pure _) (record { at = λ h p. (tt, p) })

    lost-Keeps : (answer : Moved) → Keeps (AllFitting query) (lost journal narrowed answer)
    lost-Keeps answer =
        Keeps-if narrowed.strict_cursor _ _ (Keeps-throw JournalError.cursor_expired)
          (nearest-Keeps answer)

    position-Keeps :
        (cursor : String) (answer : Moved)
        → Keeps (AllFitting query) (position journal narrowed cursor answer)
    unfolding position
    position-Keeps cursor Moved.failed = Keeps-throw _
    position-Keeps cursor Moved.at_end = lost-Keeps Moved.at_end
    position-Keeps cursor Moved.moved =
        Keeps-bind _ _ (Keeps-observe (Op.test_cursor cursor) _ (λ h p. (tt, p)))
          (λ found. Keeps-if found _ _ (Keeps-pure []) (lost-Keeps Moved.moved))

    read_after-Keeps :
        (fuel : ℕ) (cursor : String)
        → Keeps (AllFitting query) (read_after journal narrowed fuel cursor)
    unfolding read_after
    read_after-Keeps fuel cursor =
        sought-Keeps (Op.seek_cursor cursor) (λ h. journal.seeks_cursor h cursor)
          JournalError.cursor_expired _ tt
          (Keeps-bind _ _ (Keeps-observe Op.next journal.next (λ h p. (tt, p))) (λ answer.
            Keeps-bind _ _ (position-Keeps cursor answer)
              (λ page. fill_page-Keeps fuel narrowed.newest_first page)))

    read_tail-Keeps : (fuel : ℕ) → Keeps (AllFitting query) (read_tail journal narrowed fuel)
    unfolding read_tail
    read_tail-Keeps fuel =
        sought-Keeps Op.seek_tail journal.seeks_tail JournalError.read_failed _ tt (
          Keeps-if narrowed.newest_first _ _ (fill_page-Keeps fuel true [])
            (Keeps-bind _ _ (fill_page-Keeps fuel true []) (λ page. Keeps-pure _)))

    read_since-Keeps :
        (fuel since : ℕ) → Keeps (AllFitting query) (read_since journal narrowed fuel since)
    unfolding read_since
    read_since-Keeps fuel since =
        sought-Keeps (Op.seek_time since) (λ h. journal.seeks_time h since) JournalError.read_failed
          _ tt (fill_page-Keeps fuel false [])

    read_without-Keeps :
        (fuel : ℕ) (since : Option ℕ)
        → Keeps (AllFitting query) (read_without journal narrowed fuel since)
    read_without-Keeps fuel none = read_tail-Keeps fuel
    read_without-Keeps fuel (some since) =
        Keeps-if narrowed.newest_first _ _ (read_tail-Keeps fuel) (read_since-Keeps fuel since)

    read_from-Keeps :
        (fuel : ℕ) (cursor : Option String)
        → Keeps (AllFitting query) (read_from journal narrowed fuel cursor)
    read_from-Keeps fuel none = read_without-Keeps fuel narrowed.since
    read_from-Keeps fuel (some cursor) = read_after-Keeps fuel cursor

    filter_audience-Keeps : Keeps (AllFitting query) (filter_audience journal narrowed)
    unfolding filter_audience
    filter_audience-Keeps =
        Keeps-if _ _ _
          (Keeps-bind _ _ (Keeps-observe (Op.add_match "MNC_LOG_AUDIENCE=user") _ (λ h p. (tt, p)))
            (λ added. Keeps-if added _ _ (Keeps-pure tt) (Keeps-throw JournalError.read_failed)))
          (Keeps-pure tt)

    -- reading hands nothing to the handler
    pub read-Keeps : (fuel : ℕ) → Keeps (AllFitting query) (read journal narrowed fuel)
    unfolding read
    read-Keeps fuel = Keeps-if (nat_beq narrowed.limit 0) _ _ (Keeps-pure []) (
        Keeps-if (not journal.is_open) _ _ (Keeps-throw JournalError.unavailable) (
          Keeps-bind _ _ (Keeps-observe {A = Unit {0}} Op.flush_matches (λ h. tt) (λ h p. (tt, p)))
            (λ _.
              Keeps-bind _ _ filter_audience-Keeps
                (λ _. read_from-Keeps fuel (start_after narrowed.after)))))
