-- ===== src/Cache/Lru.antt =====
-- `LRUCache` of common/src/main/include/ezbake/common/lrucache/LRUCache.h: its state and methods.
-- The bimap is the list of its entries in the order of the list view (`right`), the least
-- recently used first. An iterator is the position of its entry in that view, which is what
-- `std::distance(_cache.right.begin(), _cache.project_right(itr))` computes.
-- The hash table of the key view belongs to Boost: `range k items` is the sequence of iterators
-- of `left.equal_range(k)`, whose order Boost leaves open.
pub mod Min
pub mod Spec
pub mod Reads
pub mod Queries
pub mod Writes
pub mod Bounds
mod Tests
use ezbake_common_cpp.Common.{
  ℕ, ◌+◌, ◌%◌, ◌^◌, Bool, true, false, not, ◌&&◌, ◌||◌, Option, none, some, List, [], ◌∷◌, ◌++◌,
  ltb, leb, ◌==◌, if◌then◌else◌, Eq, length, get_elem?, erase_at,
}

pub record Cache {ℓ} (K V : Type ℓ) : Type ℓ where
  pub capacity : ℕ
  pub items : List (K × V)

-- What the lookups of an iterator range in `getLruEntry` compute: the smaller distance wins.
unfoldable pub scan_lru : ℕ → List ℕ → ℕ
scan_lru entry [] = entry
scan_lru entry (itr ∷ r) = scan_lru (if ltb itr entry then itr else entry) r

-- `entry = range.first` and the loop; there is no iterator in an empty range.
unfoldable pub lru_of : List ℕ → Option ℕ
lru_of [] = none
lru_of (first ∷ r) = some (scan_lru first (first ∷ r))

module _ {ℓ} {K V : Type ℓ} ⦃e : Eq K⦄ where
  -- `_cache.left.find(k) != _cache.left.end()`
  unfoldable pub has_key : K → List (K × V) → Bool
  has_key k [] = false
  has_key k ((j, v) ∷ l) = e.beq j k || has_key k l

  -- `_cache.left.erase(k)`: every entry of the key goes.
  unfoldable pub erase_key : K → List (K × V) → List (K × V)
  erase_key k [] = []
  erase_key k ((j, v) ∷ l) = let rest = erase_key k l in if e.beq j k then rest else (j, v) ∷ rest

module _ {ℓ} {K V : Type ℓ} where
  -- The constructor, and `clear`.
  unfoldable pub init : ℕ → Cache K V
  init capacity = record { capacity = capacity; items = [] }

  unfoldable pub clear : Cache K V → Cache K V
  clear c = record c { items = [] }

  -- `static_cast<unsigned int>(_cache.size())`
  unfoldable pub size : Cache K V → ℕ
  size c = length c.items % 2 ^ 32

  unfoldable pub is_empty : Cache K V → Bool
  unfolding size
  is_empty c = size c == 0

  unfoldable pub is_full : Cache K V → Bool
  unfolding size
  is_full c = if c.capacity == 0 then false else leb c.capacity (size c)

  -- `_cache.right.relocate(_cache.right.end(), itr)` of the entry `x` at `i`.
  abbrev pub relocate : ℕ → K × V → List (K × V) → List (K × V)
  relocate i x l = erase_at i l ++ (x ∷ [])

  -- `_cache.right.erase(_cache.right.begin())`
  unfoldable pub drop_front : List (K × V) → List (K × V)
  drop_front [] = []
  drop_front (x ∷ l) = l

  -- The second step of `put`: at capacity, the least recently used entry goes.
  unfoldable pub make_room : ℕ → List (K × V) → List (K × V)
  unfolding drop_front
  make_room capacity l = if not (capacity == 0) && leb capacity (length l) then drop_front l else l

  -- The values at the iterators of a range; the loops of `remove` and `valueSet`.
  unfoldable pub values_at : List (K × V) → List ℕ → List V
  values_at l [] = []
  values_at l (itr ∷ r) =
      let rest = values_at l r in elim (get_elem? l itr) [ none ↦ rest | some x ↦ x.1 ∷ rest ]

module _ {ℓ} {K V : Type ℓ} ⦃e : Eq V⦄ where
  -- `itr->second == value`
  unfoldable pub value_is : V → Option (K × V) → Bool
  value_is v none = false
  value_is v (some x) = e.beq x.1 v

  -- The loop of `findEntry`.
  unfoldable pub scan_value : List (K × V) → V → List ℕ → Option ℕ
  unfolding value_is
  scan_value l v [] = none
  scan_value l v (itr ∷ r) = if value_is v (get_elem? l itr) then some itr else scan_value l v r

  -- The loop of `getKey`, over the list view.
  unfoldable pub scan_key : V → List (K × V) → Option K
  scan_key v [] = none
  scan_key v ((k, w) ∷ l) = if e.beq w v then some k else scan_key v l

module _ {ℓ} {V : Type ℓ} ⦃e : Eq V⦄ where
  -- `std::set::insert`, the set as the list of its elements in the order of insertion.
  unfoldable pub set_has : V → List V → Bool
  set_has v [] = false
  set_has v (w ∷ s) = e.beq w v || set_has v s

  unfoldable pub set_insert : List V → V → List V
  unfolding set_has
  set_insert s v = if set_has v s then s else s ++ (v ∷ [])

  unfoldable pub set_of : List V → List V → List V
  unfolding set_insert
  set_of s [] = s
  set_of s (v ∷ l) = set_of (set_insert s v) l

module _ {ℓ} {K V : Type ℓ} ⦃eK : Eq K⦄ ⦃eV : Eq V⦄ where
  unfoldable pub has_entry : K → V → List (K × V) → Bool
  has_entry k v [] = false
  has_entry k v ((j, w) ∷ l) = (eK.beq j k && eV.beq w v) || has_entry k v l

  -- `set.insert(entry)` for each entry.
  unfoldable pub insert_entries : List (K × V) → List (K × V) → List (K × V)
  unfolding has_entry
  insert_entries s [] = s
  insert_entries s ((k, v) ∷ l) =
      insert_entries (if has_entry k v s then s else s ++ ((k, v) ∷ [])) l

  -- A set, here in the order of the list view.
  unfoldable pub entry_set : Cache K V → List (K × V)
  unfolding insert_entries
  entry_set c = insert_entries [] c.items

module _ {ℓ} {K V : Type ℓ} ⦃e : Eq K⦄ where
  unfoldable pub contains_key : Cache K V → K → Bool
  unfolding has_key
  contains_key c k = has_key k c.items

module _ {ℓ} {K V : Type ℓ} ⦃e : Eq V⦄ where
  unfoldable pub get_key : Cache K V → V → Option K
  unfolding scan_key
  get_key c v = scan_key v c.items

  unfoldable pub contains_value : Cache K V → V → Bool
  unfolding get_key
  contains_value c v = elim (get_key c v) [ none ↦ false | some k ↦ true ]

module _ {ℓ} {K V : Type ℓ} ⦃eK : Eq K⦄ ⦃eV : Eq V⦄ (range : K → List (K × V) → List ℕ) where
  unfoldable pub get_lru_entry : K → List (K × V) → Option ℕ
  unfolding lru_of
  get_lru_entry k l = if has_key k l then lru_of (range k l) else none

  unfoldable pub find_entry : K → V → List (K × V) → Option ℕ
  find_entry k v l = scan_value l v (range k l)

  -- The entry at the least recently used iterator, with that iterator.
  unfoldable pub lru_entry : K → List (K × V) → Option (ℕ × K × V)
  unfolding get_lru_entry
  lru_entry k l = elim (get_lru_entry k l) [
    | none ↦ none
    | some i ↦ elim (get_elem? l i) [ none ↦ none | some x ↦ some (i, x.0, x.1) ]
  ]

  unfoldable pub get : Cache K V → K → Cache K V × Option V
  unfolding lru_entry
  get c k = elim (lru_entry k c.items) [
    | none ↦ (c, none)
    | some (i, j, v) ↦ (record c { items = relocate i (j, v) c.items }, some v)
  ]

  unfoldable pub pop : Cache K V → K → Cache K V × Option V
  unfolding lru_entry
  pop c k = elim (lru_entry k c.items) [
    | none ↦ (c, none)
    | some (i, j, v) ↦ (record c { items = erase_at i c.items }, some v)
  ]

  -- The first step of `put`, and the erasure of the two-argument `remove`.
  unfoldable pub erase_found : K → V → List (K × V) → List (K × V)
  unfolding find_entry
  erase_found k v l = elim (find_entry k v l) [ none ↦ l | some i ↦ erase_at i l ]

  unfoldable pub put : Cache K V → K → V → Cache K V
  unfolding erase_found make_room
  put c k v = record c { items = make_room c.capacity (erase_found k v c.items) ++ ((k, v) ∷ []) }

  -- `std::list<V> remove(const K& key)`
  unfoldable pub remove : Cache K V → K → Cache K V × List V
  unfolding values_at
  remove c k = (record c { items = erase_key k c.items }, values_at c.items (range k c.items))

  -- `boost::optional<V> remove(const K& key, const V& value)`
  unfoldable pub remove_value : Cache K V → K → V → Cache K V × Option V
  unfolding find_entry
  remove_value c k v = elim (find_entry k v c.items) [
    | none ↦ (c, none)
    | some i ↦ elim (get_elem? c.items i) [
      | none ↦ (c, none)
      | some x ↦ (record c { items = erase_at i c.items }, some x.1)
    ]
  ]

  -- The `do … while` of `valueSet` reads the first iterator before its test: on an empty range
  -- that is a read of the end iterator, `none` here.
  unfoldable pub value_set : Cache K V → K → Option (List V)
  unfolding values_at set_of
  value_set c k = elim (range k c.items) [
    | [] ↦ none
    | first ∷ r ↦ some (set_of [] (values_at c.items (first ∷ r)))
  ]

  -- `std::distance(range.first, range.second)`, as `unsigned int`
  unfoldable pub value_range : Cache K V → K → ℕ
  value_range c k = length (range k c.items) % 2 ^ 32
