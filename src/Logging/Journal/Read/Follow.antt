-- ===== src/Logging/Journal/Read/Follow.antt =====
-- `JournalReader::follow` of journal_reader.cpp. The first round of reading has no wait before it.
use meta_monutchee.Base.{
  ℕ, zero, suc, Bool, not, Option, none, some, String, List, [], ◌∷◌, if◌then◌else◌,
}
use meta_monutchee.System.Trace.{pure, throw, running, observe, ◌>>=◌, ◌>>◌}
use meta_monutchee.Logging.Journal.{Entry, Query}
use meta_monutchee.Logging.Journal.Read.{Op, JournalError, Waited, Reader, J, read}

-- where the next page begins: the cursor and the time of the last entry
pub record Place : Type 0 where
  pub after : Option String
  pub since : Option ℕ

abbrev pub continuing : Query → Place → Query
continuing query place = record query { after = place.after; since = place.since }

abbrev pub behind : Entry → Place
behind e = record { after = some e.cursor; since = some e.timestamp }

module _ (journal : Reader) (query : Query) where
  -- the entries are handed over until the handler refuses one, `none`
  unfoldable pub hand_over : Place → List Entry → J (Option Place)
  hand_over place [] = pure (some place)
  hand_over place (e ∷ es) = observe (Op.handle e) (λ h. journal.handles h e) >>= λ more.
      if more then hand_over (behind e) es else pure none

  abbrev pub seek_tail_if : Option String → J (Unit {0})
  seek_tail_if (some cursor) = pure tt
  seek_tail_if none = observe Op.seek_tail journal.seeks_tail >>= λ found.
      if found then pure tt else throw JournalError.follow_failed

  abbrev pub is_running : J Bool
  is_running = observe Op.ask_running journal.keeps_running

  -- the cursor is given up if it is lost
  abbrev pub seek_again : Place → Option String → J Place
  seek_again place none = pure place
  seek_again place (some cursor) =
      observe (Op.seek_cursor cursor) (λ h. journal.seeks_cursor h cursor) >>= λ found.
      pure (if found then place else record place { after = none })

  unfoldable pub after_wait : Place → (Place → J (Unit {0})) → Waited → J (Unit {0})
  after_wait place again Waited.wait_failed = throw JournalError.follow_failed
  after_wait place again Waited.invalidated =
      is_running >>= λ more. if more then (seek_again place place.after >>= again) else pure tt
  after_wait place again Waited.woken = is_running >>= λ more. if more then again place else pure tt

  unfoldable pub go_on : (Place → J (Unit {0})) → Option Place → J (Unit {0})
  go_on again none = pure tt
  go_on again (some place) = again place

  unfoldable pub next_page : Place → (Place → J (Unit {0})) → List Entry → J (Unit {0})
  unfolding hand_over after_wait go_on
  next_page place again [] = observe Op.wait journal.waited >>= after_wait place again
  next_page place again (e ∷ es) = hand_over place (e ∷ es) >>= go_on again

  -- the endless loop, as often as the fuel; `pages` is the fuel of each page
  unfoldable pub follow_rounds : ℕ → ℕ → Place → J (Unit {0})
  unfolding next_page
  follow_rounds zero pages place = running
  follow_rounds (suc fuel) pages place = is_running >>= λ more.
      if more
      then (read journal (continuing query place) pages
          >>= next_page place (follow_rounds fuel pages))
      else pure tt

  abbrev pub follow_from : ℕ → ℕ → Place → J (Unit {0})
  follow_from fuel pages place = seek_tail_if place.after >> follow_rounds fuel pages place

  unfoldable pub follow : ℕ → ℕ → J (Unit {0})
  unfolding follow_rounds
  follow fuel pages =
      if not journal.is_open
      then throw JournalError.unavailable
      else if query.newest_first
      then throw JournalError.newest_first_refused
      else (read journal query pages >>= λ es.
          hand_over (record { after = query.after; since = query.since }) es
          >>= go_on (follow_from fuel pages))
