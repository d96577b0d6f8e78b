-- ===== src/Cache/Timed.antt =====
-- `CacheValue` and `LRUTimedCache` of
-- common/src/main/include/ezbake/common/lrucache/LRUTimedCache.h, on top of `LRUCache`.
-- Times of the clock are in microseconds since the epoch, time stamps and the expiration in
-- seconds; the arithmetic on them is exact here.
pub mod Fresh
pub mod Keeps
pub mod Expiry
pub mod Removal
mod Tests
use ezbake_common_cpp.Common.{
  ℕ, suc, ◌+◌, ◌*◌, ◌/◌, ◌≡◌, ◌↔◌, Bool, true, false, ◌&&◌, Option, none, some, List, [], ◌∷◌, map,
  leb, ◌==◌, if◌then◌else◌, Eq, arith, get_elem?,
}
use ezbake_common_cpp.Cache.Lru
use ezbake_common_cpp.Cache.Lru.{Cache}

pub record CacheValue {ℓ} (V : Type ℓ) : Type ℓ where
  pub timestamp : ℕ
  pub value : V

pub record TimedCache {ℓ} (K V : Type ℓ) : Type ℓ where
  pub cache : Cache K (CacheValue V)
  pub expiration : ℕ

abbrev pub second : ℕ
second = 1000000

-- `CacheValue(const T& val)`
abbrev pub stamped {ℓ} : {V : Type ℓ} → ℕ → V → CacheValue V
stamped now v = record { timestamp = now / second; value = v }

unfoldable pub expired : ℕ → ℕ → ℕ → Bool
expired expiration now timestamp =
    if expiration == 0 then false else leb ((timestamp + expiration) * second) now

module _ {ℓ} {V : Type ℓ} ⦃e : Eq V⦄ where
  unfoldable pub same_value : CacheValue V → CacheValue V → Bool
  same_value v w = (v.timestamp == w.timestamp) && e.beq v.value w.value

  pub same_value_iff : (v w : CacheValue V) → (same_value v w ≡ true) ↔ (v ≡ w)
  unfolding same_value
  same_value_iff v w = ground (arith, e.beq_iff v.value w.value)

  instance abbrev pub value_eq : Eq (CacheValue V)
  value_eq = record { beq = same_value; beq_iff = same_value_iff }

module _ {ℓ} {K V : Type ℓ} ⦃e : Eq V⦄ (expiration : ℕ) (clock : ℕ → ℕ) where
  -- The loop of `getKey` over the list view: the key it stops at, and the expired entries before.
  -- The clock is read once for each entry of the value; `i` counts the entries.
  unfoldable pub scan_fresh : ℕ → V → List (K × CacheValue V) → Option K × List (K × CacheValue V)
  scan_fresh i v [] = (none, [])
  scan_fresh i v ((k, w) ∷ l) =
      let rest = scan_fresh (suc i) v l in
      if e.beq w.value v
      then (if expired expiration (clock i) w.timestamp
          then (rest.0, (k, w) ∷ rest.1)
          else (some k, []))
      else rest

module _ {ℓ} {K V : Type ℓ} ⦃e : Eq V⦄ where
  -- The loop of the two-argument `remove`: the entries of the range that have the value.
  unfoldable pub entries_at : V → List (K × CacheValue V) → List ℕ → List (K × CacheValue V)
  entries_at v l [] = []
  entries_at v l (itr ∷ r) =
      let rest = entries_at v l r in
      elim (get_elem? l itr) [ none ↦ rest | some x ↦ if e.beq x.1.value v then x ∷ rest else rest ]

-- `range` is as for `LRUCache`; `order` gives the elements of a `std::set` of entries in the order
-- of its iteration, from the elements inserted.
module _ {ℓ} {K V : Type ℓ} ⦃eK : Eq K⦄ ⦃eV : Eq V⦄ (range : K → List (K × CacheValue V) → List ℕ)
    (order : List (K × CacheValue V) → List (K × CacheValue V)) where
  unfoldable pub init : ℕ → ℕ → TimedCache K V
  init capacity expiration = record { cache = Lru.init capacity; expiration = expiration }

  -- What `get` does with the outcome of the underlying `get`: an expired entry is expunged.
  unfoldable pub expunge_expired :
      TimedCache K V
      → ℕ
      → K
      → Cache K (CacheValue V) × Option (CacheValue V)
      → TimedCache K V × Option V
  expunge_expired c now k (cache, none) = (record c { cache = cache }, none)
  expunge_expired c now k (cache, some w) =
      if expired c.expiration now w.timestamp
      then (record c { cache = (Lru.remove_value range cache k w).0 }, none)
      else (record c { cache = cache }, some w.value)

  unfoldable pub get : TimedCache K V → ℕ → K → TimedCache K V × Option V
  unfolding expunge_expired
  get c now k = expunge_expired c now k (Lru.get range c.cache k)

  -- What `pop` does with the outcome of the underlying `pop`.
  unfoldable pub hide_expired :
      TimedCache K V
      → ℕ
      → Cache K (CacheValue V) × Option (CacheValue V)
      → TimedCache K V × Option V
  hide_expired c now (cache, none) = (record c { cache = cache }, none)
  hide_expired c now (cache, some w) = (
    record c { cache = cache },
    if expired c.expiration now w.timestamp then none else some w.value,
  )

  unfoldable pub pop : TimedCache K V → ℕ → K → TimedCache K V × Option V
  unfolding hide_expired
  pop c now k = hide_expired c now (Lru.pop range c.cache k)

  unfoldable pub put : TimedCache K V → ℕ → K → V → TimedCache K V
  put c now k v = record c { cache = Lru.put range c.cache k (stamped now v) }

  -- `BOOST_FOREACH(const TCEntry& entry, …) remove(entry.first, entry.second);`
  unfoldable pub remove_entries :
      Cache K (CacheValue V) → List (K × CacheValue V) → Cache K (CacheValue V)
  remove_entries c [] = c
  remove_entries c ((k, w) ∷ l) = remove_entries (Lru.remove_value range c k w).0 l

  unfoldable pub get_key : TimedCache K V → (ℕ → ℕ) → V → TimedCache K V × Option K
  unfolding remove_entries
  get_key c clock v =
      let (key, expired_entries) = scan_fresh c.expiration clock 0 v c.cache.items in
      (record c { cache = remove_entries c.cache (order expired_entries) }, key)

  unfoldable pub contains_value : TimedCache K V → (ℕ → ℕ) → V → TimedCache K V × Bool
  unfolding get_key
  contains_value c clock v =
      let (after, key) = get_key c clock v in (after, elim key [ none ↦ false | some _ ↦ true ])

  unfoldable pub remove : TimedCache K V → K → TimedCache K V × List (CacheValue V)
  remove c k =
      let (cache, removed) = Lru.remove range c.cache k in (record c { cache = cache }, removed)

  unfoldable pub remove_value : TimedCache K V → K → V → TimedCache K V × List (CacheValue V)
  unfolding remove_entries entries_at
  remove_value c k v =
      let entries = order (entries_at v c.cache.items (range k c.cache.items)) in
      (record c { cache = remove_entries c.cache entries }, map (λ entry. entry.1) entries)

  -- The values of the underlying set, stripped of their time stamps.
  unfoldable pub value_set : TimedCache K V → K → Option (List V)
  value_set c k = elim (Lru.value_set range c.cache k) [
    | none ↦ none
    | some s ↦ some (Lru.set_of [] (map (λ w. w.value) s))
  ]

module _ {ℓ} {K V : Type ℓ} ⦃eK : Eq K⦄ ⦃eV : Eq V⦄ where
  -- The entries without their time stamps.
  unfoldable pub entry_set : TimedCache K V → List (K × V)
  entry_set c = Lru.insert_entries [] (map (λ (k, w). (k, w.value)) (Lru.entry_set c.cache))
