-- ===== src/Logging/Journal/Read.antt =====
-- `JournalReader::read` of journal_reader.cpp, over what the journal of systemd answers.
pub mod Filled
pub mod Same
pub mod Follow
pub mod Handed
pub mod Unhanded
use meta_monutchee.Base.{
  ℕ, zero, suc, ◌+◌, String, Bool, true, false, ◌&&◌, ◌||◌, not, Option, none, some, List, [], ◌∷◌,
  ◌++◌, ltb, nat_beq, ◌==◌, string_eq, empty, length, if◌then◌else◌,
}
use meta_monutchee.System.Trace.{Trace, pure, throw, running, observe, ◌>>=◌, ◌>>◌}
use meta_monutchee.Logging.Journal.{Entry, Query, matches_query, reverse_onto, start_after}

pub data Op : Type 0 where
  flush_matches seek_tail : Op
  add_match : String → Op
  seek_cursor test_cursor : String → Op
  seek_time : ℕ → Op
  next previous decode_entry : Op
  -- the handler of `follow`, the question whether it is to go on, and a wait for new entries
  handle : Entry → Op
  ask_running wait : Op

abbrev pub Ops : Type 0
Ops = List Op

-- what a step answers: a negative number, zero, or a positive one
pub data Moved : Type 0 where
  failed at_end moved : Moved

-- what a wait answers: a negative number, `SD_JOURNAL_INVALIDATE`, or another
pub data Waited : Type 0 where
  wait_failed invalidated woken : Waited

-- The answers of the journal, and of the caller of `follow`. `entry` is what `current_entry` decodes where the journal stands.
pub record Reader : Type 0 where
  pub is_open : Bool
  pub adds_match : Ops → Bool
  pub seeks_cursor : Ops → String → Bool
  pub is_at_cursor : Ops → String → Bool
  pub seeks_tail : Ops → Bool
  pub seeks_time : Ops → ℕ → Bool
  pub next : Ops → Moved
  pub previous : Ops → Moved
  pub entry : Ops → Entry
  pub handles : Ops → Entry → Bool
  pub keeps_running : Ops → Bool
  pub waited : Ops → Waited

pub data JournalError : Type 0 where
  unavailable cursor_expired read_failed newest_first_refused follow_failed : JournalError

abbrev pub J : Type 0 → Type 0
J A = Trace Op JournalError A

module _ (journal : Reader) (query : Query) where
  abbrev pub decode_here : J Entry
  decode_here = observe Op.decode_entry journal.entry

  -- a step in the given direction
  abbrev pub step : Bool → J Moved
  step true = observe Op.previous journal.previous
  step false = observe Op.next journal.next

  abbrev pub add : Entry → List Entry → List Entry
  add entry page = if matches_query entry query then page ++ (entry ∷ []) else page

  -- what follows a step in the loop
  unfoldable pub take_step : List Entry → (List Entry → J (List Entry)) → Moved → J (List Entry)
  take_step page again Moved.failed = throw JournalError.read_failed
  take_step page again Moved.at_end = pure page
  take_step page again Moved.moved = decode_here >>= λ entry. again (add entry page)

  -- a loop in one direction, with the page so far
  unfoldable pub fill_page : ℕ → Bool → List Entry → J (List Entry)
  unfolding take_step
  fill_page zero back page = if ltb (length page) query.limit then running else pure page
  fill_page (suc fuel) back page =
      let round = step back >>= take_step page (fill_page fuel back) in
      if ltb (length page) query.limit then round else pure page

  -- where the cursor is not found, and the entry there counts
  abbrev pub nearest : Moved → J (List Entry)
  nearest Moved.moved =
      if query.newest_first then pure [] else (decode_here >>= λ entry. pure (add entry []))
  nearest _ = pure []

  abbrev pub lost : Moved → J (List Entry)
  lost positioned =
      if query.strict_cursor then throw JournalError.cursor_expired else nearest positioned

  -- the step behind the seek: its answer, and whether the journal stands at the cursor
  unfoldable pub position : String → Moved → J (List Entry)
  position cursor Moved.failed = throw JournalError.read_failed
  position cursor Moved.at_end = lost Moved.at_end
  position cursor Moved.moved =
      observe (Op.test_cursor cursor) (λ h. journal.is_at_cursor h cursor) >>= λ found.
      if found then pure [] else lost Moved.moved

  unfoldable pub read_after : ℕ → String → J (List Entry)
  unfolding position fill_page
  read_after fuel cursor = do
    sought ← observe (Op.seek_cursor cursor) (λ h. journal.seeks_cursor h cursor)
    if sought then pure tt else throw JournalError.cursor_expired
    positioned ← observe Op.next journal.next
    page ← position cursor positioned
    fill_page fuel query.newest_first page

  -- from the tail, or from the time on
  unfoldable pub read_tail : ℕ → J (List Entry)
  unfolding fill_page
  read_tail fuel = do
    sought ← observe Op.seek_tail journal.seeks_tail
    if sought then pure tt else throw JournalError.read_failed
    if query.newest_first
        then fill_page fuel true []
        else (fill_page fuel true [] >>= λ page. pure (reverse_onto page []))

  unfoldable pub read_since : ℕ → ℕ → J (List Entry)
  unfolding fill_page
  read_since fuel since = do
    sought ← observe (Op.seek_time since) (λ h. journal.seeks_time h since)
    if sought then pure tt else throw JournalError.read_failed
    fill_page fuel false []

  -- the three ways to begin
  abbrev pub read_without : ℕ → Option ℕ → J (List Entry)
  read_without fuel none = read_tail fuel
  read_without fuel (some since) =
      if query.newest_first then read_tail fuel else read_since fuel since

  abbrev pub read_from : ℕ → Option String → J (List Entry)
  read_from fuel none = read_without fuel query.since
  read_from fuel (some cursor) = read_after fuel cursor

  abbrev pub wants_user : Option String → Bool
  wants_user none = false
  wants_user (some audience) = audience == "user"

  unfoldable pub filter_audience : J (Unit {0})
  filter_audience =
      if wants_user query.audience
      then (observe (Op.add_match "MNC_LOG_AUDIENCE=user") journal.adds_match >>= λ added.
          if added then pure tt else throw JournalError.read_failed)
      else pure tt

  unfoldable pub read : ℕ → J (List Entry)
  unfolding filter_audience read_after read_tail read_since
  read fuel =
      if nat_beq query.limit 0
      then pure []
      else if not journal.is_open
      then throw JournalError.unavailable
      else (do
        observe Op.flush_matches (λ h. tt)
        filter_audience
        read_from fuel (start_after query.after))
