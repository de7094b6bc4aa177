-- ===== src/Journal.antt =====
-- journal.h, and the passes of journal_writeback in super.c: entries queue in NUM_WAY lists, by
-- the low bits of their serial number, and the journal's thread takes them out and frees them.
--
-- An entry is its address; it is allocated and freed outside the journal. `none` is an access out
-- of the bounds of the array of lists, or the removal of a list's head from its own list. `fuel`
-- bounds the rounds of the loop over one list: its length suffices.
pub mod Queue
pub mod Bounds
use Prim.Native.Nat.{bit_and}
use cinquain_meta.Common.{
  ℕ, zero, suc, ◌+◌, ◌%◌, ◌^◌, Bool, true, false, Option, none, some, List, [], ◌∷◌, ◌++◌, ◌==◌,
  ltb, if◌then◌else◌, inc32,
}
use cinquain_meta.Containers.{Ptr, Library}

abbrev pub num_way : ℕ
num_way = 128

-- entry->sn & WAY_MASK, with the mask 0xff
abbrev pub way_of : ℕ → ℕ
way_of sn = sn % 2 ^ 8

-- struct cinq_journal: what stands in each of its lists
pub record Journal : Type 0 where
  pub list : ℕ → List Ptr

infixl 5 ◌>>=◌
abbrev ◌>>=◌ : {A B : Type 0} → Option A → (A → Option B) → Option B
none >>= f = none
some a >>= f = f a

-- journal_init
abbrev pub empty_journal : Journal
empty_journal = record { list = λ way. [] }

-- jentry->sn = atomic_inc_return(&g_counter): the new counter is the serial number
abbrev pub next_sn : ℕ → ℕ
next_sn counter = inc32 counter

-- an access of journal->list[way]
list_at : Journal → ℕ → Option (List Ptr)
list_at j way = if ltb way num_way then some (j.list way) else none

put_list : Journal → ℕ → List Ptr → Journal
put_list j way l = record j { list = λ w. if w == way then l else j.list w }

is_empty : List Ptr → Bool
is_empty [] = true
is_empty (_ ∷ _) = false

unfoldable pub journal_empty : Journal → ℕ → Option Bool
unfolding list_at is_empty
journal_empty j way = do l ← list_at j way; some (is_empty l)

module _ ⦃u : Library⦄ where
  unfoldable pub journal_add : Journal → Ptr → ℕ → Option Journal
  unfolding list_at put_list
  journal_add j entry sn = do
    l ← list_at j (way_of sn)
    some (put_list j (way_of sn) (u.list_add_tail entry l))

  first_of_list : Journal → ℕ → List Ptr → Option (Ptr × Journal)
  unfolding put_list
  first_of_list j way [] = none
  first_of_list j way (head ∷ l) = some (head, put_list j way (u.list_del head (head ∷ l)))

  unfoldable pub journal_get : Journal → ℕ → Option (Ptr × Journal)
  unfolding list_at first_of_list
  journal_get j way = do l ← list_at j way; first_of_list j way l

  -- while (!journal_empty_syn(journal, way)) jentry_free(journal_get_syn(journal, way)); with the
  -- entries that it frees
  unfoldable pub drain_way : ℕ → Journal → ℕ → Option (List Ptr × Journal)
  drain_way zero j way = none
  drain_way (suc fuel) j way = do
    done ← journal_empty j way
    if done then some ([], j) else do
      (entry, j') ← journal_get j way
      (freed, j'') ← drain_way fuel j' way
      some (entry ∷ freed, j'')

  -- for (i = way; i < way + ways; ++i), one pass of journal_writeback for `ways` equal to NUM_WAY
  unfoldable pub drain_ways : ℕ → Journal → ℕ → ℕ → Option (List Ptr × Journal)
  drain_ways fuel j way zero = some ([], j)
  drain_ways fuel j way (suc ways) = do
    (freed, j') ← drain_way fuel j way
    (more, j'') ← drain_ways fuel j' (way + 1) ways
    some (freed ++ more, j'')
