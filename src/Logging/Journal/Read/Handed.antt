-- ===== src/Logging/Journal/Read/Handed.antt =====
-- What `follow` hands to its handler.
use meta_monutchee.Base.{
  ℕ, zero, suc, ◌≡◌, arith, Bool, Bool-cases, true, ◌&&◌, not, inl, inr, refl, Option, none, some,
  String, List, [], ◌∷◌, leb, All, if◌then◌else◌,
}
use meta_monutchee.System.Trace.{Returns, ◌>>=◌, >>=-elim}
use meta_monutchee.System.Trace.Rules.{
  Keeps, Keeps-pure, Keeps-throw, Keeps-observe, Keeps-bind, Keeps-if,
}
use meta_monutchee.Logging.Journal.{
  Entry, Query, is_wanted, is_since, is_until, is_urgent, is_listed, matches_query,
}
use meta_monutchee.Logging.Journal.Read.{Op, Ops, JournalError, Waited, Reader, J}
use meta_monutchee.Logging.Journal.Read.Filled.{IsPage, read-IsPage}
use meta_monutchee.Logging.Journal.Read.Unhanded.{AllFitting, read-Keeps}
use meta_monutchee.Logging.Journal.Read.Follow.{
  Place, continuing, behind, hand_over, seek_tail_if, seek_again, after_wait, go_on, next_page,
  follow_rounds, follow_from, follow,
}

leb_trans : (a b c : ℕ) → leb a b ≡ true → leb b c ≡ true → leb a c ≡ true
leb_trans a b c h g = ground arith

since_of : (front s u c m p l : Bool) → (front && s && u && c && m && p && l) ≡ true → s ≡ true
since_of true true u c m p l h = refl
since_of front s u c m p l h = absurd (cc)

since_instead :
    (front s s' u c m p l : Bool)
    → (front && s' && u && c && m && p && l) ≡ true
    → s ≡ true
    → (front && s && u && c && m && p && l) ≡ true
since_instead true true true u c m p l h g = h
since_instead front s s' u c m p l h g = absurd (cc)

-- the tests of an entry before that of the time from which on it counts
abbrev front_tests : Entry → Query → Bool
front_tests e query =
    is_wanted query.audience e.audience
    && is_wanted query.category e.category
    && is_wanted query.event e.event

matches-since :
    (e : Entry) (query : Query)
    → matches_query e query ≡ true
    → is_since query.since e.timestamp ≡ true
unfolding matches_query
matches-since e query h =
    since_of (front_tests e query) (is_since query.since e.timestamp)
      (is_until query.until e.timestamp) (is_wanted query.component e.component)
      (is_wanted query.module_name e.module_name) (is_urgent query.maximum_priority e.priority)
      (is_listed e query) h

matches-continuing :
    (e : Entry) (query : Query) (place : Place)
    → matches_query e (continuing query place) ≡ true
    → is_since query.since e.timestamp ≡ true
    → matches_query e query ≡ true
unfolding matches_query
matches-continuing e query place h since =
    since_instead (front_tests e query) (is_since query.since e.timestamp)
      (is_since place.since e.timestamp) (is_until query.until e.timestamp)
      (is_wanted query.component e.component) (is_wanted query.module_name e.module_name)
      (is_urgent query.maximum_priority e.priority) (is_listed e query) h since

later_on :
    (since : Option ℕ) (t later : ℕ)
    → is_since since t ≡ true
    → leb t later ≡ true
    → is_since since later ≡ true
later_on none t later h g = refl
later_on (some since) t later h g = leb_trans since t later h g

module _ (query : Query) where
  -- an entry that matches the query of the next page matches the given one
  record Suits (place : Place) : Type 0 where
    back :
        (e : Entry) → matches_query e (continuing query place) ≡ true → matches_query e query ≡ true

  lost_cursor : (place : Place) → Suits place → Suits (record place { after = none })
  unfolding matches_query
  lost_cursor place suits = record { back = suits.back }

  abbrev SuitsIf : Option Place → Type 0
  SuitsIf none = Unit
  SuitsIf (some place) = Suits place

  Keeps-read_on :
      {A B : Type 0} (R : A → Type 0) (m : J A) (f : A → J B)
      → Keeps (AllFitting query) m
      → ((h : Ops) → Returns R (m h))
      → ((a : A) → R a → Keeps (AllFitting query) (f a))
      → Keeps (AllFitting query) (m >>= f)
  Keeps-read_on R m f keeps gives k = record {
    at = λ h p.
        >>=-elim (λ r. AllFitting query r.1 × Returns R r) (λ r. AllFitting query r.1) m f h
          (keeps.at h p, gives h) (λ a h' s. (k a s.1).at h' s.0) (λ e h' s. s.0) (λ h' s. s.0);
  }

  behind-Suits : (e : Entry) → matches_query e query ≡ true → Suits (behind e)
  behind-Suits e fits = record {
    back = λ later h. matches-continuing later query (behind e) h (
        later_on query.since e.timestamp later.timestamp (matches-since e query fits)
          (matches-since later (continuing query (behind e)) h));
  }

  module _ (journal : Reader) where
    hand_over-Keeps :
        (place : Place) (es : List Entry)
        → All (λ e. matches_query e query ≡ true) es
        → Keeps (AllFitting query) (hand_over journal query place es)
    unfolding hand_over
    hand_over-Keeps place [] fits = Keeps-pure (some place)
    hand_over-Keeps place (e ∷ es) fits =
        Keeps-bind _ _ (Keeps-observe (Op.handle e) _ (λ h p. (fits.0, p)))
          (λ more. Keeps-if more _ _ (hand_over-Keeps (behind e) es fits.1) (Keeps-pure none))

    hand_over-Suits :
        (place : Place) (es : List Entry)
        → Suits place
        → All (λ e. matches_query e query ≡ true) es
        → (h : Ops) → Returns SuitsIf (hand_over journal query place es h)
    unfolding hand_over
    hand_over-Suits place [] suits fits h = suits
    hand_over-Suits place (e ∷ es) suits fits h = elim (Bool-cases (journal.handles h e)) [
      | inl more ↦
          rw more (hand_over-Suits (behind e) es (behind-Suits e fits.0) fits.1 (Op.handle e ∷ h))
      | inr refused ↦ rw refused tt
    ]

    seek_again-Keeps :
        (place : Place) (after : Option String)
        → Keeps (AllFitting query) (seek_again journal query place after)
    seek_again-Keeps place none = Keeps-pure place
    seek_again-Keeps place (some cursor) =
        Keeps-bind _ _ (Keeps-observe (Op.seek_cursor cursor) _ (λ h p. (tt, p)))
          (λ found. Keeps-pure (if found then place else record place { after = none }))

    seek_again-Suits :
        (place : Place) (after : Option String)
        → Suits place
        → (h : Ops) → Returns Suits (seek_again journal query place after h)
    seek_again-Suits place none suits h = suits
    seek_again-Suits place (some cursor) suits h =
        elim (Bool-cases (journal.seeks_cursor h cursor)) [
          | inl found ↦ rw found suits
          | inr missing ↦ rw missing (lost_cursor place suits)
        ]

    module _ (again : Place → J (Unit {0}))
        (again-Keeps : (place : Place) → Suits place → Keeps (AllFitting query) (again place)) where
      after_wait-Keeps :
          (place : Place) (woke : Waited)
          → Suits place
          → Keeps (AllFitting query) (after_wait journal query place again woke)
      unfolding after_wait
      after_wait-Keeps place Waited.wait_failed suits = Keeps-throw JournalError.follow_failed
      after_wait-Keeps place Waited.invalidated suits =
          Keeps-bind _ _ (Keeps-observe Op.ask_running _ (λ h p. (tt, p))) (λ more.
            Keeps-if more _ _
              (Keeps-read_on Suits _ _ (seek_again-Keeps place place.after)
                (seek_again-Suits place place.after suits) again-Keeps)
              (Keeps-pure tt))
      after_wait-Keeps place Waited.woken suits =
          Keeps-bind _ _ (Keeps-observe Op.ask_running _ (λ h p. (tt, p)))
            (λ more. Keeps-if more _ _ (again-Keeps place suits) (Keeps-pure tt))

      go_on-Keeps :
          (place : Option Place)
          → SuitsIf place
          → Keeps (AllFitting query) (go_on journal query again place)
      unfolding go_on
      go_on-Keeps none suits = Keeps-pure tt
      go_on-Keeps (some place) suits = again-Keeps place suits

      handed-Keeps :
          (place : Place) (es : List Entry)
          → Suits place
          → All (λ e. matches_query e query ≡ true) es
          → Keeps
              (AllFitting query)
              (hand_over journal query place es >>= go_on journal query again)
      handed-Keeps place es suits fits =
          Keeps-read_on SuitsIf _ _ (hand_over-Keeps place es fits)
            (hand_over-Suits place es suits fits) go_on-Keeps

      next_page-Keeps :
          (place : Place) (es : List Entry)
          → Suits place
          → All (λ e. matches_query e query ≡ true) es
          → Keeps (AllFitting query) (next_page journal query place again es)
      unfolding next_page
      next_page-Keeps place [] suits fits =
          Keeps-bind _ _ (Keeps-observe Op.wait _ (λ h p. (tt, p)))
            (λ woke. after_wait-Keeps place woke suits)
      next_page-Keeps place (e ∷ es) suits fits = handed-Keeps place (e ∷ es) suits fits

    suiting :
        (place : Place)
        → Suits place
        → (es : List Entry) → All (λ e. matches_query e (continuing query place) ≡ true) es
        → All (λ e. matches_query e query ≡ true) es
    suiting place suits [] fits = tt
    suiting place suits (e ∷ es) fits = (suits.back e fits.0, suiting place suits es fits.1)

    follow_rounds-Keeps :
        (fuel pages : ℕ) (place : Place)
        → Suits place
        → Keeps (AllFitting query) (follow_rounds journal query fuel pages place)
    unfolding follow_rounds
    follow_rounds-Keeps zero pages place suits = record { at = λ h p. p }
    follow_rounds-Keeps (suc fuel) pages place suits =
        Keeps-bind _ _ (Keeps-observe Op.ask_running _ (λ h p. (tt, p))) (λ more.
          Keeps-if more _ _
            (Keeps-read_on (IsPage journal (continuing query place)) _ _
              (read-Keeps query journal (continuing query place) pages)
              (read-IsPage journal (continuing query place) pages)
              (λ es fits.
                next_page-Keeps (follow_rounds journal query fuel pages)
                  (follow_rounds-Keeps fuel pages) place es suits (suiting place suits es fits.1)))
            (Keeps-pure tt))

    follow_from-Keeps :
        (fuel pages : ℕ) (place : Place)
        → Suits place
        → Keeps (AllFitting query) (follow_from journal query fuel pages place)
    follow_from-Keeps fuel pages place suits =
        Keeps-bind _ _ (seek_tail_if-Keeps place.after)
          (λ _. follow_rounds-Keeps fuel pages place suits)
      where
        seek_tail_if-Keeps :
            (after : Option String) → Keeps (AllFitting query) (seek_tail_if journal query after)
        seek_tail_if-Keeps (some cursor) = Keeps-pure tt
        seek_tail_if-Keeps none =
            Keeps-bind _ _ (Keeps-observe Op.seek_tail _ (λ h p. (tt, p)))
              (λ found. Keeps-if found _ _ (Keeps-pure tt) (Keeps-throw JournalError.follow_failed))

    -- However the journal and the caller answer, and however long the reading is followed, each entry that is
    -- handed over matches the query that `follow` was given, also from the pages that continue later.
    pub follow-AllFitting :
        (fuel pages : ℕ) → AllFitting query (follow journal query fuel pages []).1
    unfolding follow
    follow-AllFitting fuel pages = followed.at [] tt
      where
        followed : Keeps (AllFitting query) (follow journal query fuel pages)
        followed = Keeps-if (not journal.is_open) _ _ (Keeps-throw JournalError.unavailable) (
            Keeps-if query.newest_first _ _ (Keeps-throw JournalError.newest_first_refused) (
              Keeps-read_on (IsPage journal query) _ _ (read-Keeps query journal query pages)
                (read-IsPage journal query pages)
                (λ es fits.
                  handed-Keeps (follow_from journal query fuel pages) (follow_from-Keeps fuel pages)
                    _ es (record { back = λ e h. h }) fits.1)))
