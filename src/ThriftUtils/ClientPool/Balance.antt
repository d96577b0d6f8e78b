-- ===== src/ThriftUtils/ClientPool/Balance.antt =====
-- `createClient` tries the endpoints of the service in the order of their last use, each once.
use ezbake_common_cpp.Cache.Lru
use ezbake_common_cpp.Cache.Lru.{Cache}
use ezbake_common_cpp.Cache.Lru.Min.{count, positions, IsRange}
use ezbake_common_cpp.Cache.Lru.Spec.{find_first, without_first, after_get, get-after_get}
use ezbake_common_cpp.Common.Result.{ok}
use ezbake_common_cpp.Common.{
  ℕ, zero, suc, ◌+◌, ◌≤◌, ◌<◌, ◌≡◌, refl, ap, ◌∙◌, true, Option, none, some, List, [], ◌∷◌, ◌++◌,
  ◌==◌, if◌then◌else◌, Eq, Text, text_Eq, arith, length, length-append, Option-cases, inl, inr,
}
use ezbake_common_cpp.Config.Helpers.Base.{BaseConfiguration}
use ezbake_common_cpp.Config.Helpers.Constants.{Constants}
use ezbake_common_cpp.Net.HostAndPort.{HostAndPort}
use ezbake_common_cpp.ThriftUtils.ClientPool.{Outside, host_eq, connect, try_endpoints}

module _ {ℓ} {K V : Type ℓ} ⦃eK : Eq K⦄ where
  -- The values of the entries of the key, the least recently used first.
  unfoldable pub values_of : K → List (K × V) → List V
  values_of k [] = []
  values_of k ((j, v) ∷ l) = if eK.beq j k then v ∷ values_of k l else values_of k l

  values_of-append :
      (k : K) (l m : List (K × V)) → values_of k (l ++ m) ≡ values_of k l ++ values_of k m
  unfolding values_of
  values_of-append k [] m = refl
  values_of-append k ((j, v) ∷ l) m = ground (arith, values_of-append k l m)

  values_of-find_first :
      (k : K) (l : List (K × V)) (v : V) (vs : List V)
      → values_of k l ≡ v ∷ vs
      → (find_first k l ≡ some v) × (values_of k (without_first k l) ≡ vs)
  unfolding values_of find_first without_first
  values_of-find_first k [] v vs h = cc
  values_of-find_first k ((j, w) ∷ l) v vs h = ground (arith, values_of-find_first k l v vs)

  length-positions :
      (n : ℕ) (k : K) (l : List (K × V)) → length (positions n k l) ≡ length (values_of k l)
  unfolding values_of positions
  length-positions n k [] = refl
  length-positions n k ((j, v) ∷ l) = ground (arith, length-positions (suc n) k l)

remove_one : ℕ → List ℕ → List ℕ
remove_one i [] = []
remove_one i (j ∷ r) = if i == j then r else j ∷ remove_one i r

count-remove_one :
    (i j : ℕ) (r : List ℕ)
    → 0 < count i r
    → (count j r ≡ (if j == i then 1 else 0) + count j (remove_one i r))
      × (length r ≡ 1 + length (remove_one i r))
unfolding remove_one
count-remove_one i j [] h = absurd (omega arith)
count-remove_one i j (x ∷ r) h = ground (arith, count-remove_one i j r)

-- Two lists with the same counts have the same length.
length-count : (r s : List ℕ) → ((i : ℕ) → count i r ≡ count i s) → length r ≡ length s
length-count [] [] h = refl
length-count [] (j ∷ s) h = absurd (ground (arith, h j))
length-count (i ∷ r) s h =
    let there : 0 < count i s = ground (arith, h i) in
    let rest =
      length-count r (remove_one i s)
        (λ j. ground (arith, h j, (count-remove_one i j s there).0)) in
    ground (arith, (count-remove_one i i s there).1, rest)

abbrev pub take {ℓ} : {A : Type ℓ} → ℕ → List A → List A
take zero l = []
take (suc n) [] = []
take (suc n) (x ∷ l) = x ∷ take n l

take-append {ℓ} : {A : Type ℓ} (n : ℕ) (l m : List A) → n ≤ length l → take n (l ++ m) ≡ take n l
take-append zero l m h = refl
take-append (suc n) [] m h = absurd (omega arith)
take-append (suc n) (x ∷ l) m h = ap (λ r. x ∷ r) (take-append n l m (omega arith))

pub take_whole {ℓ} : {A : Type ℓ} (l : List A) → take (length l) l ≡ l
take_whole [] = refl
take_whole (x ∷ l) = ap (λ r. x ∷ r) (take_whole l)

module _ {ℓ} {K V : Type ℓ} ⦃eK : Eq K⦄ ⦃eV : Eq V⦄ (range : K → List (K × V) → List ℕ)
    (law : IsRange range) where
  -- `get` moves the first value behind the others.
  get-values_of :
      (c : Cache K V) (k : K) (v : V) (vs : List V)
      → values_of k c.items ≡ v ∷ vs
      → ((Lru.get range c k).1 ≡ some v)
        × (values_of k (Lru.get range c k).0.items ≡ vs ++ (v ∷ []))
  unfolding after_get values_of
  get-values_of c k v vs h =
      let (found, rest) = values_of-find_first k c.items v vs h in
      let same : eK.beq k k ≡ true = (eK.beq_iff k k).1 refl in
      (
        rw (get-after_get range law c k, found),
        rw (
          get-after_get range law c k,
          found,
          after_get,
          values_of-append k (without_first k c.items) ((k, v) ∷ []),
          rest,
          same,
        ),
      )

  pub length-range : (k : K) (l : List (K × V)) → length (range k l) ≡ length (values_of k l)
  length-range k l =
      length-count (range k l) (positions 0 k l) (λ i. law.same k l i) ∙ length-positions 0 k l

module _ {Client : Type 0} (outside : Outside Client) (g : Constants)
    (thrift_config : BaseConfiguration) where
  -- The client of the first endpoint that opens.
  unfoldable pub first_open : (round try : ℕ) → List HostAndPort → Option Client
  first_open round try [] = none
  first_open round try (h ∷ hs) = elim (connect g thrift_config outside round try h) [
    | none ↦ first_open round (suc try) hs
    | some client ↦ some client
  ]

module _ {Client : Type 0} (outside : Outside Client)
    (range : Text → List (Text × HostAndPort) → List ℕ) (law : IsRange range) (g : Constants)
    (thrift_config : BaseConfiguration) where
  pub try_endpoints-first_open :
      (left round try : ℕ) (cache : Cache Text HostAndPort) (service_name : Text)
      → left ≤ length (values_of service_name cache.items)
      → (try_endpoints outside range g thrift_config left round try cache service_name).1
        ≡ ok (
            first_open outside g thrift_config round try
              (take left (values_of service_name cache.items)))
  unfolding try_endpoints first_open
  try_endpoints-first_open zero round try cache service_name h = refl
  try_endpoints-first_open (suc left) round try cache service_name h =
      next (values_of service_name cache.items) refl h (λ k.
        try_endpoints-first_open left round (suc try) (Lru.get range cache service_name).0
          service_name k)
    where
      next :
          (vs : List HostAndPort)
          → values_of service_name cache.items ≡ vs
          → suc left ≤ length vs
          → (left ≤ length (values_of service_name (Lru.get range cache service_name).0.items)
              → (try_endpoints outside range g thrift_config left round
                  (suc try)
                  (Lru.get range cache service_name).0
                  service_name).1
                ≡ ok (
                    first_open outside g thrift_config round (suc try) (
                      take left
                        (values_of service_name (Lru.get range cache service_name).0.items))))
          → (try_endpoints outside range g thrift_config (suc left) round try cache service_name).1
            ≡ ok (first_open outside g thrift_config round try (take (suc left) vs))
      next [] e k ih = absurd (omega arith)
      next (v ∷ vs) e k ih =
          let (got, after) = get-values_of range law cache service_name v vs e in
          let rest = ih (rw after (omega (arith, length-append vs (v ∷ [])))) in
          elim (Option-cases (connect g thrift_config outside round try v)) [
            | inl failed ↦ rw (
              got,
              try_endpoints,
              failed,
              first_open,
              rest,
              after,
              take-append left vs (v ∷ []) (omega arith),
            )
            | inr (client, opened) ↦ rw (got, try_endpoints, opened, first_open)
          ]
