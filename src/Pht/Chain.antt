-- ===== src/Pht/Chain.antt =====
-- The collision list of pht/src/hash-table-base.c (and of v1 and v2, which have copies of it).
use kernel_modules.Common.{
  ℕ, ◌≡◌, sym, ◌∙◌, true, false, List, [], ◌∷◌, Option, none, some, Bool-cases, inl, inr,
  if◌then◌else◌,
}
use kernel_modules.Pht.Text.{streq, streq_comm, streq_congr}

-- `struct list_entry` without its link, which is the list's.
pub record ListEntry : Type 0 where
  pub key : List ℕ
  pub value : ℕ

-- `struct list_head`, and `struct hash_table_entry`.
abbrev pub ListHead : Type 0
ListHead = List ListEntry

-- The entry that SLIST_FOREACH stops at.
unfoldable pub get_list_entry : ListHead → List ℕ → Option ListEntry
get_list_entry [] key = none
get_list_entry (entry ∷ rest) key =
    if streq entry.key key then some entry else get_list_entry rest key

-- `list_entry->value = value`, at the entry that get_list_entry returns.
unfoldable pub set_value : ListHead → List ℕ → ℕ → ListHead
set_value [] key value = []
set_value (entry ∷ rest) key value =
    if streq entry.key key
    then record entry { value = value } ∷ rest
    else entry ∷ set_value rest key value

abbrev pub value_of : Option ListEntry → Option ℕ
value_of none = none
value_of (some entry) = some entry.value

-- The value that a chain holds for a key.
abbrev pub chain_value : ListHead → List ℕ → Option ℕ
chain_value chain key = value_of (get_list_entry chain key)

streq_apart : (a b c : List ℕ) → streq a b ≡ true → streq a c ≡ false → streq c b ≡ false
streq_apart a b c same apart = streq_comm c b ∙ sym (streq_congr a b c same) ∙ apart

pub chain_value-set_value :
    (chain : ListHead) (key : List ℕ) (value : ℕ) (other : List ℕ) (entry : ListEntry)
    → get_list_entry chain key ≡ some entry
    → chain_value (set_value chain key value) other
      ≡ (if streq key other then some value else chain_value chain other)
unfolding get_list_entry set_value
chain_value-set_value [] key value other entry found = absurd (cc)
chain_value-set_value (e ∷ rest) key value other entry found = elim (Bool-cases (streq e.key key)) [
  | inl here ↦ elim (Bool-cases (streq key other)) [
    | inl same ↦ rw (here, streq_congr e.key key other here, same)
    | inr apart ↦ rw (here, streq_congr e.key key other here, apart)
  ]
  | inr before ↦ elim (Bool-cases (streq e.key other)) [
    | inl same ↦ rw (before, same, streq_apart e.key other key same before)
    | inr apart ↦
        rw (before, apart) (chain_value-set_value rest key value other entry (rw before at found))
  ]
]
