-- ===== src/Cache/Lru/Tests.antt =====
-- The theorems on `LRUCache` at concrete caches, and runs of its methods.
use ezbake_common_cpp.Common.{ℕ, ◌≡◌, refl, false, some, List, [], ◌∷◌, arith, nat_eq}
use ezbake_common_cpp.Cache.Lru.Bounds.{IsValid, put_call, get_call, run, run-init-IsValid}
use ezbake_common_cpp.Cache.Lru.Min.{positions, IsRange}
use ezbake_common_cpp.Cache.Lru.Reads.{is_dropped, holds-put}
use ezbake_common_cpp.Cache.Lru.Spec.{
  find_first, without_first, after_get, after_pop, get-after_get, pop-after_pop,
}
use ezbake_common_cpp.Cache.Lru.Writes.{
  holds, erase_entry, after_put, without_oldest, put-after_put,
}
use ezbake_common_cpp.Cache.Lru.{Cache, init, get, pop, put, scan_value, scan_lru, has_key}

abbrev range : ℕ → List (ℕ × ℕ) → List ℕ
range k l = positions 0 k l

law : IsRange range
law = record { same = λ k l i. refl }

-- Two values of the key 1 with one of the key 2 between them; full.
abbrev full : Cache ℕ ℕ
full = record { capacity = 3; items = (1, 10) ∷ (2, 20) ∷ (1, 11) ∷ [] }

full-IsValid : IsValid full
unfolding holds
full-IsValid = record { distinct = (refl, (refl, (refl, tt))); bounded = ground arith }

get-after_get_example :
    get range full 1 ≡ (record { capacity = 3; items = (2, 20) ∷ (1, 11) ∷ (1, 10) ∷ [] }, some 10)
unfolding after_get find_first without_first
get-after_get_example = get-after_get range law full 1

pop-after_pop_example :
    pop range full 1 ≡ (record { capacity = 3; items = (2, 20) ∷ (1, 11) ∷ [] }, some 10)
unfolding after_pop find_first without_first
pop-after_pop_example = pop-after_pop range law full 1

put-after_put_example :
    put range full 2 21 ≡ record { capacity = 3; items = (2, 20) ∷ (1, 11) ∷ (2, 21) ∷ [] }
unfolding after_put without_oldest erase_entry
put-after_put_example = put-after_put range law full 2 21 full-IsValid.distinct

run-init-IsValid_example :
    IsValid (run range (init 2) (put_call 1 10 ∷ put_call 2 20 ∷ get_call 1 ∷ put_call 3 30 ∷ []))
run-init-IsValid_example =
    run-init-IsValid range law 2 (put_call 1 10 ∷ put_call 2 20 ∷ get_call 1 ∷ put_call 3 30 ∷ [])

holds-put_example : holds 1 10 (put range full 2 21).items ≡ false
unfolding holds is_dropped erase_entry
holds-put_example = holds-put range law full 2 1 21 10 full-IsValid.distinct

-- The order of accesses counts, not that of insertion: 2 is dropped.
run_example :
    run range (init 2) (put_call 1 10 ∷ put_call 2 20 ∷ get_call 1 ∷ put_call 3 30 ∷ [])
    ≡ record { capacity = 2; items = (1, 10) ∷ (3, 30) ∷ [] }
unfolding run init get put positions has_key scan_value scan_lru
run_example = refl
