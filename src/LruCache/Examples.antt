-- ===== src/LruCache/Examples.antt =====
-- Runs of `LRUCacheWithTTL` (LRU_with_TTL/LRUCache.cpp), and its theorems at a small cache.
use learn_spdk.Base.{
  if◌then◌else◌, ◌==◌, suc, max, List, All, All-imp, ◌<◌, ℕ, ◌≡◌, refl, [], ◌∷◌, none, some, arith,
}
use learn_spdk.LruCache.{Node, LruCacheWithTtl, assign, make, get, put, clean_expire}
use learn_spdk.LruCache.Nodes.{index, live, take_key}
use learn_spdk.LruCache.Forms.{IsWellFormed}
use learn_spdk.LruCache.Plain.{view, recalled, stored, unexpired}
use learn_spdk.LruCache.Refine.{IsAllocator, get_lem, put_lem}
use learn_spdk.LruCache.Client.{get-put, get_undefined}

abbrev node_of_1 : Node
node_of_1 = record { address = 100; key = 1; value = 1; expire_time = 2 }

abbrev node_of_2 : Node
node_of_2 = record { address = 101; key = 2; value = 2; expire_time = 2 }

-- The cache of the test program after its first two calls of `put`, at time 0.
abbrev two_nodes : LruCacheWithTtl
two_nodes = record {
  ttl = 2;
  capacity = 2;
  cache = node_of_2 ∷ node_of_1 ∷ [];
  key_map = assign 2 101 (assign 1 100 (λ k. none));
}

abbrev one_node : LruCacheWithTtl
one_node = record {
  ttl = 2;
  capacity = 2;
  cache = node_of_1 ∷ [];
  key_map = assign 1 100 (λ k. none);
}

-- An allocator: the address after all that the list has, from 100 on.
abbrev next_address : List Node → ℕ
next_address [] = 100
next_address (n ∷ ns) = max (suc n.address) (next_address ns)

below_next : (ns : List Node) → All (λ n. n.address < next_address ns) ns
below_next [] = tt
below_next (n ∷ ns) = (omega arith, All-imp (λ m l. omega (arith, l)) ns (below_next ns))

next_address-IsAllocator : IsAllocator next_address
next_address-IsAllocator ns = All-imp (λ n l e. absurd (omega (arith, l, e))) ns (below_next ns)

first_puts : put 1 1 0 0 next_address (make 2 2) ≡ some one_node
unfolding put clean_expire make
first_puts = refl

-- The least used of two keys is lost to a third one.
eviction :
    get 1 0 0 two_nodes
    ≡ some (
      1,
      record {
        ttl = 2;
        capacity = 2;
        cache = node_of_1 ∷ node_of_2 ∷ [];
        key_map = two_nodes.key_map;
      },
    )
unfolding get clean_expire
eviction = refl

-- The address of the node that is lost may be given at once.
reuses :
    put 3 3 0 0 (λ ns. 100) two_nodes
    ≡ some (record {
      ttl = 2;
      capacity = 2;
      cache = record { address = 100; key = 3; value = 3; expire_time = 2 } ∷ node_of_2 ∷ [];
      key_map = assign 3 100 (λ k. if k == 1 then none else two_nodes.key_map k);
    })
unfolding put clean_expire
reuses = refl

two_nodes-IsWellFormed : IsWellFormed two_nodes
unfolding index
two_nodes-IsWellFormed = record {
  distinct = ground arith;
  indexed = λ key. ground arith;
  bounded = omega arith;
}

get_lem_example :
    (t : LruCacheWithTtl) × (value : ℕ) × (get 1 0 1 two_nodes ≡ some (value, t))
    × IsWellFormed t
    × ((value, view t.cache) ≡ recalled 1 (unexpired 0 (view two_nodes.cache)))
unfolding live
get_lem_example = get_lem 1 0 1 two_nodes two_nodes-IsWellFormed (ground arith)

put_lem_example :
    (t : LruCacheWithTtl) × (put 3 3 0 1 next_address two_nodes ≡ some t)
    × IsWellFormed t
    × (view t.cache ≡ stored 3 3 3 2 (unexpired 0 (view two_nodes.cache)))
put_lem_example =
    put_lem 3 3 0 1 next_address two_nodes two_nodes-IsWellFormed (omega arith)
      next_address-IsAllocator

get-put_example : (u : LruCacheWithTtl) × (get 1 1 1 one_node ≡ some (1, u))
unfolding live put clean_expire make index
get-put_example =
    get-put 1 1 0 0 1 1 next_address (make 2 2) one_node
      (record { distinct = tt; indexed = λ key. refl; bounded = omega arith }) (omega arith)
      next_address-IsAllocator refl (omega arith) (ground arith)

get_undefined_example : get 1 1 2 two_nodes ≡ none
unfolding live take_key
get_undefined_example =
    get_undefined 1 1 2 two_nodes node_of_1 (node_of_2 ∷ []) two_nodes-IsWellFormed refl
      (omega arith)
