-- ===== src/Writeback/Ledger.antt =====
-- The ledger of one key, read as a replay: what the entries so far say about the next one.
use mathlib.Core.List.{reverse, reverse-append}
use aeronta_inventory.Base.{
  ℕ, ◌+◌, ◌≡◌, refl, ap, ◌∙◌, Option, none, some, List, [], ◌∷◌, ◌++◌, length, arith, if◌then◌else◌,
}
use aeronta_inventory.Writeback.{
  Key, Levels, HistoryEntry, is_written, first_written, latest_written,
}

-- What a ledger says: its last version, the level in force and the version that set it.
pub record Head : Type 0 where
  pub version : ℕ
  pub level : Option Levels
  pub parent : Option ℕ

abbrev pub start : Head
start = record { version = 0; level = none; parent = none }

-- A shadowed entry moves the version only.
abbrev pub advance : Head → HistoryEntry → Head
advance h e =
    if is_written e.status
    then record { version = h.version + 1; level = some e.new_values; parent = some e.version }
    else record { version = h.version + 1; level = h.level; parent = h.parent }

abbrev pub head_from : Head → List HistoryEntry → Head
head_from h [] = h
head_from h (e ∷ es) = head_from (advance h e) es

-- Entry `e` of key `k` continues a ledger that says `h`.
pub record Continues (k : Key) (h : Head) (e : HistoryEntry) : Type 0 where
  pub of_key : (e.tenant_id, e.pn, e.location) ≡ k
  pub next_version : e.version ≡ h.version + 1
  pub old_level : e.old_values ≡ h.level
  pub parent : e.parent_version ≡ h.parent

abbrev pub Chained : Key → Head → List HistoryEntry → Type 0
Chained k h [] = Unit
Chained k h (e ∷ es) = Continues k h e × Chained k (advance h e) es

pub Chained-snoc :
    (k : Key) (h : Head) (es : List HistoryEntry) (e : HistoryEntry)
    → Chained k h es
    → Continues k (head_from h es) e
    → Chained k h (es ++ e ∷ [])
Chained-snoc k h [] e c n = (n, tt)
Chained-snoc k h (x ∷ es) e c n = (c.0, Chained-snoc k (advance h x) es e c.1 n)

pub head_from-snoc :
    (h : Head) (es : List HistoryEntry) (e : HistoryEntry)
    → head_from h (es ++ e ∷ []) ≡ advance (head_from h es) e
head_from-snoc h [] e = refl
head_from-snoc h (x ∷ es) e = head_from-snoc (advance h x) es e

pub version-head_from :
    (h : Head) (es : List HistoryEntry) → (head_from h es).version ≡ h.version + length es
version-head_from h [] = omega arith
version-head_from h (x ∷ es) = ground (arith, version-head_from (advance h x) es)

abbrev or_else : Option HistoryEntry → Option HistoryEntry → Option HistoryEntry
or_else none d = d
or_else (some e) d = some e

abbrev if_written : HistoryEntry → Option HistoryEntry
if_written e = if is_written e.status then some e else none

first_written-append :
    (xs ys : List HistoryEntry)
    → first_written (xs ++ ys) ≡ or_else (first_written xs) (first_written ys)
unfolding first_written
first_written-append [] ys = refl
first_written-append (x ∷ xs) ys = ground (arith, first_written-append xs ys)

first_written-one : (e : HistoryEntry) → first_written (e ∷ []) ≡ if_written e
unfolding first_written
first_written-one e = refl

-- The search of the source runs over the reversed list, so a later entry comes first.
latest_written-cons :
    (e : HistoryEntry) (es : List HistoryEntry)
    → latest_written (e ∷ es) ≡ or_else (latest_written es) (if_written e)
unfolding latest_written
latest_written-cons e es =
    ap first_written (reverse-append (e ∷ []) es)
    ∙ first_written-append (reverse es) (e ∷ [])
    ∙ ap (or_else (first_written (reverse es))) (first_written-one e)

abbrev level_or : Option Levels → Option HistoryEntry → Option Levels
level_or d none = d
level_or d (some e) = some e.new_values

abbrev parent_or : Option ℕ → Option HistoryEntry → Option ℕ
parent_or d none = d
parent_or d (some e) = some e.version

pub level-head_from :
    (h : Head) (es : List HistoryEntry)
    → (head_from h es).level ≡ level_or h.level (latest_written es)
unfolding latest_written first_written
level-head_from h [] = refl
level-head_from h (e ∷ es) =
    ground (arith, level-head_from (advance h e) es, latest_written-cons e es)

pub parent-head_from :
    (h : Head) (es : List HistoryEntry)
    → (head_from h es).parent ≡ parent_or h.parent (latest_written es)
unfolding latest_written first_written
parent-head_from h [] = refl
parent-head_from h (e ∷ es) =
    ground (arith, parent-head_from (advance h e) es, latest_written-cons e es)

pub latest_written-snoc :
    (es : List HistoryEntry) (e : HistoryEntry)
    → latest_written (es ++ e ∷ []) ≡ (if is_written e.status then some e else latest_written es)
unfolding latest_written first_written
latest_written-snoc es e = rw reverse-append refl
