-- ===== src/Logging/Journal/Read/Same.antt =====
-- Reading from a journal that holds some entries gives the page of these entries.
use meta_monutchee.Base.{
  ◌≡◌, ◌≢◌, keep_if, ◌||◌, Bool, true, false, Option, none, some, String, List, [], ◌∷◌, ◌==◌,
  string_eq, any,
}
use meta_monutchee.System.Trace.{Ended, returned, threw}
use meta_monutchee.Logging.Journal.{Entry, Query, reverse_onto, skip_through}
use meta_monutchee.Logging.Journal.Read.{Op, Ops, Moved, JournalError, Reader}

-- going back from here, the journal gives these entries and then ends
abbrev pub Delivers : Reader → Ops → List Entry → Type 0
Delivers journal h [] = journal.previous h ≡ Moved.at_end
Delivers journal h (e ∷ es) =
    (journal.previous h ≡ Moved.moved)
    × (journal.entry (Op.previous ∷ h) ≡ e)
    × Delivers journal (Op.decode_entry ∷ (Op.previous ∷ h)) es

abbrev pub has_cursor : String → List Entry → Bool
has_cursor cursor entries = any (λ (e : Entry). e.cursor == cursor) entries

-- What systemd documents of a journal that shows these entries, oldest first, behind the calls `h`: the tail
-- is behind the last; the step behind a seek to the cursor of an entry is to this entry, and the steps back
-- from there are to those before; the test of a cursor that no entry has fails, if there is an entry to
-- test at all.
pub record Shows (journal : Reader) (entries : List Entry) (h : Ops) : Type 0 where
  pub finds_tail : journal.seeks_tail h ≡ true
  pub tail : Delivers journal (Op.seek_tail ∷ h) (reverse_onto entries [])
  pub finds_cursor :
      (cursor : String)
      → has_cursor cursor entries ≡ true
      → (journal.seeks_cursor h cursor ≡ true)
        × (journal.next (Op.seek_cursor cursor ∷ h) ≡ Moved.moved)
        × (journal.is_at_cursor (Op.next ∷ (Op.seek_cursor cursor ∷ h)) cursor ≡ true)
        × Delivers journal
            (Op.test_cursor cursor ∷ (Op.next ∷ (Op.seek_cursor cursor ∷ h)))
            (skip_through cursor (reverse_onto entries []))
  pub misses_cursor :
      (cursor : String)
      → has_cursor cursor entries ≡ false
      → (journal.next (Op.seek_cursor cursor ∷ h) ≢ Moved.failed)
        × (journal.is_at_cursor (Op.next ∷ (Op.seek_cursor cursor ∷ h)) cursor ≡ false)

-- a match for the audience of users has been added since the matches were flushed last
abbrev pub is_filtered : Reader → Ops → Bool
is_filtered journal [] = false
is_filtered journal (Op.flush_matches ∷ h) = false
is_filtered journal (Op.add_match text ∷ h) = journal.adds_match h || is_filtered journal h
is_filtered journal (_ ∷ h) = is_filtered journal h

-- the entries that the journal shows, with the match and without
abbrev pub shown : Bool → List Entry → List Entry
shown true entries = keep_if (λ (e : Entry). e.audience == "user") entries
shown false entries = entries

-- A journal that holds these entries, and shows those that fit its matches.
pub record IsJournal (journal : Reader) (entries : List Entry) : Type 0 where
  pub opened : journal.is_open ≡ true
  pub adds : (h : Ops) → journal.adds_match h ≡ true
  pub shows : (h : Ops) → Shows journal (shown (is_filtered journal h) entries) h

module _ (journal : Reader) (query : Query) where
  -- the answer of a page
  abbrev pub answer : Option (List Entry) → Ended JournalError (List Entry)
  answer none = threw JournalError.cursor_expired
  answer (some page) = returned page
