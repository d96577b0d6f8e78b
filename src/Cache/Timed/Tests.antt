-- ===== src/Cache/Timed/Tests.antt =====
-- The theorems on `LRUTimedCache` at concrete caches.
use ezbake_common_cpp.Common.{ℕ, ◌≡◌, ◌⊎◌, refl, true, false, none, List, [], ◌∷◌, arith, nat_eq}
use ezbake_common_cpp.Cache.Lru.Bounds.{IsValid}
use ezbake_common_cpp.Cache.Lru.Min.{positions, IsRange}
use ezbake_common_cpp.Cache.Lru.Spec.{find_first, without_first}
use ezbake_common_cpp.Cache.Lru.Writes.{holds}
use ezbake_common_cpp.Cache.Timed.Expiry.{get_key_kept}
use ezbake_common_cpp.Cache.Timed.Fresh.{after_timed_get, get-after_timed_get}
use ezbake_common_cpp.Cache.Timed.Keeps.{IsOrder}
use ezbake_common_cpp.Cache.Timed.{
  CacheValue, TimedCache, expired, value_eq, same_value, get, get_key,
}

abbrev range : ℕ → List (ℕ × CacheValue ℕ) → List ℕ
range k l = positions 0 k l

law : IsRange range
law = record { same = λ k l i. refl }

abbrev order : List (ℕ × CacheValue ℕ) → List (ℕ × CacheValue ℕ)
order l = l

set_law : IsOrder order
set_law = record { same = λ l k w. refl }

abbrev stale_value : CacheValue ℕ
stale_value = record { timestamp = 1; value = 10 }

abbrev fresh_value : CacheValue ℕ
fresh_value = record { timestamp = 5; value = 10 }

-- Entries live for three seconds.
abbrev two : TimedCache ℕ ℕ
two = record {
  cache = record { capacity = 0; items = (1, stale_value) ∷ (2, fresh_value) ∷ [] };
  expiration = 3;
}

abbrev now : ℕ
now = 6000000

abbrev clock : ℕ → ℕ
clock i = now

two-IsValid : IsValid two.cache
unfolding holds
two-IsValid = record { distinct = (refl, (refl, tt)); bounded = ground arith }

get-after_timed_get_example : get range order two now 1 ≡ (
  record { cache = record { capacity = 0; items = (2, fresh_value) ∷ [] }; expiration = 3 },
  none,
)
unfolding after_timed_get find_first without_first expired
get-after_timed_get_example = get-after_timed_get range law order two now 1 two-IsValid

get_key_kept_example :
    (holds 1 stale_value (get_key range order two clock 10).0.cache.items ≡ true)
    ⊎ ((holds 1 stale_value (get_key range order two clock 10).0.cache.items ≡ false)
        × (fresh_value.value ≡ 10)
        × ((n : ℕ) × (expired 3 (clock n) 1 ≡ true)))
unfolding holds same_value
get_key_kept_example = get_key_kept range law order set_law two clock 10 1 stale_value two-IsValid

abbrev late_clock : ℕ → ℕ
late_clock i = 9000000
