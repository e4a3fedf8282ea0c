-- ===== src/LruCache.antt =====
-- `LRUCacheWithTTL` (LRU_with_TTL/LRUCache.cpp). A list iterator is the address of a list node, and
-- each call of `steady_clock::now` is an argument. An `int` is its 32-bit pattern, a time a count of
-- seconds, and the capacity is what it is as a `size_t`. `none` is undefined behaviour: a node that
-- is gone is read, or the last item of an empty list.
pub mod Nodes
pub mod Forms
pub mod Plain
pub mod Refine
pub mod Client
mod Examples
use learn_spdk.Base.{
  ℕ, ◌+◌, List, [], ◌∷◌, Bool, true, false, if◌then◌else◌, Option, none, some, length, leb, ◌==◌,
}

pub record Node : Type 0 where
  pub address : ℕ
  pub key : ℕ
  pub value : ℕ
  pub expire_time : ℕ

-- What `find` of the map gives for a key.
abbrev pub KeyMap : Type 0
KeyMap = ℕ → Option ℕ

pub record LruCacheWithTtl : Type 0 where
  pub ttl : ℕ
  pub capacity : ℕ
  pub cache : List Node
  pub key_map : KeyMap

-- `key_map.erase(key)` and `key_map[key] = address`.
abbrev pub unmap : ℕ → KeyMap → KeyMap
unmap key m = λ k. if k == key then none else m k

abbrev pub assign : ℕ → ℕ → KeyMap → KeyMap
assign key address m = λ k. if k == key then some address else m k

abbrev pub minus_one : ℕ
minus_one = 4294967295

-- The constructor of the class.
unfoldable pub make : (capacity ttl : ℕ) → LruCacheWithTtl
make capacity ttl = record { ttl = ttl; capacity = capacity; cache = []; key_map = λ k. none }

abbrev pub is_expired : Node → ℕ → Bool
is_expired n now = leb n.expire_time now

-- The loop of `clean_expire`, from an iterator on.
unfoldable pub clean_loop : ℕ → List Node → KeyMap → List Node × KeyMap
clean_loop now [] m = ([], m)
clean_loop now (n ∷ ns) m =
    if is_expired n now
    then clean_loop now ns (unmap n.key m)
    else (n ∷ (clean_loop now ns m).0, (clean_loop now ns m).1)

unfoldable pub clean_expire : ℕ → LruCacheWithTtl → LruCacheWithTtl
unfolding clean_loop
clean_expire now s =
    let (ns, m) = clean_loop now s.cache s.key_map in
    record { ttl = s.ttl; capacity = s.capacity; cache = ns; key_map = m }

-- The node at an address, and the list without it.
unfoldable pub take_at : ℕ → List Node → Option (Node × List Node)
take_at address [] = none
take_at address (n ∷ ns) =
    if n.address == address
    then some (n, ns)
    else elim (take_at address ns) [ none ↦ none | some (found, rest) ↦ some (found, n ∷ rest) ]

-- `get` at an iterator. Where the node has expired since the cleaning, it is erased, and then read
-- through the iterator for its key.
unfoldable pub get_at : ℕ → ℕ → LruCacheWithTtl → Option (ℕ × LruCacheWithTtl)
unfolding take_at
get_at later address s = elim (take_at address s.cache) [
  | none ↦ none
  | some (n, rest) ↦
      if is_expired n later
      then (elim (take_at address rest) [
        | none ↦ none
        | some (found, others) ↦ some (
          minus_one,
          record {
            ttl = s.ttl;
            capacity = s.capacity;
            cache = rest;
            key_map = unmap found.key s.key_map;
          },
        )
      ])
      else some (
        n.value,
        record { ttl = s.ttl; capacity = s.capacity; cache = n ∷ rest; key_map = s.key_map },
      )
]

-- `get`, after the cleaning.
unfoldable pub get_clean : ℕ → ℕ → LruCacheWithTtl → Option (ℕ × LruCacheWithTtl)
unfolding get_at
get_clean key later s = elim (s.key_map key) [
  | none ↦ some (minus_one, s)
  | some address ↦ get_at later address s
]

-- `now` is the clock as `clean_expire` reads it, `later` as `is_expired` does.
unfoldable pub get : ℕ → (now later : ℕ) → LruCacheWithTtl → Option (ℕ × LruCacheWithTtl)
unfolding get_clean clean_expire
get key now later s = get_clean key later (clean_expire now s)

-- `cache.back()` and the list after `pop_back`.
unfoldable pub split_last : List Node → Option (List Node × Node)
split_last [] = none
split_last (n ∷ ns) = elim (split_last ns) [
  | none ↦ some ([], n)
  | some (front, last) ↦ some (n ∷ front, last)
]

-- A full cache loses its last node.
unfoldable pub evict : LruCacheWithTtl → Option LruCacheWithTtl
unfolding split_last
evict s =
    if length s.cache == s.capacity
    then (elim (split_last s.cache) [
      | none ↦ none
      | some (front, last) ↦ some (record {
        ttl = s.ttl;
        capacity = s.capacity;
        cache = front;
        key_map = unmap last.key s.key_map;
      })
    ])
    else some s

-- `emplace_front`, which makes a node at this address, and `key_map[key] = cache.begin()`.
unfoldable pub emplace : (key value later address : ℕ) → LruCacheWithTtl → LruCacheWithTtl
emplace key value later address s = record {
  ttl = s.ttl;
  capacity = s.capacity;
  cache =
      record { address = address; key = key; value = value; expire_time = later + s.ttl } ∷ s.cache;
  key_map = assign key address s.key_map;
}

-- `put` at an iterator.
unfoldable pub renew : (value later address : ℕ) → LruCacheWithTtl → Option LruCacheWithTtl
unfolding take_at
renew value later address s = elim (take_at address s.cache) [
  | none ↦ none
  | some (n, rest) ↦ some (record {
    ttl = s.ttl;
    capacity = s.capacity;
    cache =
        record { address = n.address; key = n.key; value = value; expire_time = later + s.ttl }
        ∷ rest;
    key_map = s.key_map;
  })
]

-- `put`, after the cleaning.
unfoldable pub put_clean :
    (key value later : ℕ) → (malloc : List Node → ℕ) → LruCacheWithTtl → Option LruCacheWithTtl
unfolding evict emplace renew
put_clean key value later malloc s = elim (s.key_map key) [
  | none ↦ elim (evict s) [
    | none ↦ none
    | some t ↦ some (emplace key value later (malloc t.cache) t)
  ]
  | some old ↦ renew value later old s
]

-- `later` is the clock as the node's new time is made from it. `malloc` is the address that the
-- allocator gives for a new node while the list has these nodes.
unfoldable pub put :
    (key value now later : ℕ) → (malloc : List Node → ℕ) → LruCacheWithTtl → Option LruCacheWithTtl
unfolding put_clean clean_expire
put key value now later malloc s = put_clean key value later malloc (clean_expire now s)
